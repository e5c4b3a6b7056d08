-- ===== src/Ca/Serials.antt =====
-- internal/ca/ca.go: the text of a certificate's serial number, and ParseRevokedSerials, which reads
-- the list of them that `ggrok ca crl` writes (cmd/ggrok/ca.go). A text is the list of its code
-- points. Whether a line fits the buffer of bufio.Scanner is a parameter; the carriage return that
-- ScanLines takes off a line is one that TrimSpace takes off as well.
pub mod Hex
pub mod Sets
pub mod RoundTrip
use ggrok.Prelude.{
  ℕ, zero, suc, ◌+◌, ◌-◌, ◌*◌, ◌/◌, ◌%◌, Bool, true, false, not, List, [], ◌∷◌, ◌++◌, reverse,
  Option, none, some, Result, ok, err, leb, ltb, ◌==◌, if◌then◌else◌, same_bytes,
}

abbrev pub Text : Type 0
Text = List ℕ

-- The byte of a digit, in big.Int's lower case.
abbrev pub digit_char : ℕ → ℕ
digit_char d = if ltb d 10 then 48 + d else 87 + d

-- `serial.Text(16)`: a digit for each round, so as many rounds as the number are enough.
unfoldable pub text_from : ℕ → ℕ → Text
text_from zero n = digit_char (n % 16) ∷ []
text_from (suc rounds) n = elim (ltb n 16) [
  | true ↦ digit_char n ∷ []
  | false ↦ text_from rounds (n / 16) ++ digit_char (n % 16) ∷ []
]

unfoldable pub serial_text : ℕ → Text
serial_text n = text_from n n

abbrev within : ℕ → ℕ → ℕ → Bool
within low high c = if leb low c then leb c high else false

-- `strings.ContainsRune("0123456789abcdefABCDEF", digit)`.
unfoldable pub hex_char : ℕ → Bool
hex_char c = if within 48 57 c then true else if within 97 102 c then true else within 65 70 c

unfoldable pub hex_value : ℕ → ℕ
hex_value c = if within 48 57 c then c - 48 else if within 97 102 c then c - 87 else c - 55

unfoldable pub all_hex : Text → Bool
all_hex [] = true
all_hex (c ∷ cs) = if hex_char c then all_hex cs else false

-- `SetString(line, 16)` of a text of digits.
unfoldable pub hex_number : ℕ → Text → ℕ
hex_number acc [] = acc
hex_number acc (c ∷ cs) = hex_number (acc * 16 + hex_value c) cs

-- unicode.IsSpace.
unfoldable pub is_space : ℕ → Bool
is_space c =
    if c == 32
    then true
    else if within 9 13 c
    then true
    else if c == 133
    then true
    else if c == 160
    then true
    else if c == 5760
    then true
    else if within 8192 8202 c
    then true
    else if within 8232 8233 c
    then true
    else if c == 8239
    then true
    else if c == 8287
    then true
    else c == 12288

unfoldable pub trim_left : Text → Text
trim_left [] = []
trim_left (c ∷ cs) = if is_space c then trim_left cs else c ∷ cs

unfoldable pub trim_space : Text → Text
trim_space s = reverse (trim_left (reverse (trim_left s)))

-- The lines of a text: what is behind the last line break is a line if it is not empty.
abbrev glue : ℕ → List Text → List Text
glue c [] = (c ∷ []) ∷ []
glue c (l ∷ ls) = (c ∷ l) ∷ ls

unfoldable pub lines : Text → List Text
lines [] = []
lines (c ∷ cs) = let rest = lines cs in if c == 10 then [] ∷ rest else glue c rest

pub data SerialError : Type 0 where
  invalid_serial : Text → SerialError
  too_long : SerialError

-- `serials[text] = struct{}{}`, and the lookup.
unfoldable pub contains : Text → List Text → Bool
contains t [] = false
contains t (x ∷ xs) = if same_bytes x t then true else contains t xs

unfoldable pub add : Text → List Text → List Text
add t set = if contains t set then set else t ∷ set

-- One line: nothing, or a serial.
unfoldable pub parse_line : Text → Result SerialError (Option ℕ)
parse_line raw =
    let line = trim_space raw in
    elim line [
      | [] ↦ ok none
      | c ∷ cs ↦
          if not (all_hex (c ∷ cs))
          then err (invalid_serial (c ∷ cs))
          else if hex_number 0 (c ∷ cs) == 0
          then err (invalid_serial (c ∷ cs))
          else ok (some (hex_number 0 (c ∷ cs)))
    ]

module _ (fits : Text → Bool) where
  -- The loop over the lines, with the set so far.
  unfoldable pub parse_lines : List Text → List Text → Result SerialError (List Text)
  parse_lines set [] = ok set
  parse_lines set (l ∷ ls) = if not (fits l) then err too_long else elim (parse_line l) [
    | err e ↦ err e
    | ok found ↦ elim found [
      | none ↦ parse_lines set ls
      | some n ↦ parse_lines (add (serial_text n) set) ls
    ]
  ]

  unfoldable pub parse_revoked_serials : Text → Result SerialError (List Text)
  parse_revoked_serials s = parse_lines [] (lines s)

-- `slices.Sorted` of texts.
unfoldable pub text_le : Text → Text → Bool
text_le [] ys = true
text_le (x ∷ xs) [] = false
text_le (x ∷ xs) (y ∷ ys) = if ltb x y then true else if ltb y x then false else text_le xs ys

unfoldable pub insert_sorted : Text → List Text → List Text
insert_sorted t [] = t ∷ []
insert_sorted t (x ∷ xs) = if text_le t x then t ∷ x ∷ xs else x ∷ insert_sorted t xs

unfoldable pub sort : List Text → List Text
sort [] = []
sort (x ∷ xs) = insert_sorted x (sort xs)

-- What writeRevokedSerials writes.
unfoldable pub print_lines : List Text → Text
print_lines [] = []
print_lines (t ∷ ts) = t ++ 10 ∷ print_lines ts

unfoldable pub revoked_list : List Text → Text
revoked_list set = print_lines (sort set)
