-- ===== src/Ca/Serials/RoundTrip.antt =====
-- cmd/ggrok/ca.go writes the list of revoked serials, internal/ca/ca.go reads it.
use ggrok.Prelude.{
  ℕ, ◌<◌, ◌≡◌, refl, ap, ◌∙◌, Bool, true, List, [], ◌∷◌, ◌++◌, inl, inr, List-cases, some, ok, All,
  arith, if◌then◌else◌,
}
use ggrok.Ca.Serials.{
  Text, serial_text, hex_char, all_hex, hex_number, lines, contains, add, parse_line, parse_lines,
  parse_revoked_serials, sort, print_lines, revoked_list,
}
use ggrok.Ca.Serials.Hex.{hex_number-serial_text, all_hex-serial_text, trim_space-hex}
use ggrok.Ca.Serials.Sets.{contains-add, contains-sort, All-sort}

lines-append : (t rest : Text) → all_hex t ≡ true → lines (t ++ 10 ∷ rest) ≡ t ∷ lines rest
unfolding lines all_hex hex_char
lines-append [] rest h = refl
lines-append (c ∷ t) rest h = ground (arith, lines-append t rest)

pub parse_line-serial_text : (n : ℕ) → 0 < n → parse_line (serial_text n) ≡ ok (some n)
unfolding parse_line hex_number
parse_line-serial_text n pos =
    let hex = all_hex-serial_text n in
    let whole = trim_space-hex (serial_text n) hex in
    let value = hex_number-serial_text n in
    elim (List-cases (serial_text n)) [
      | inl empty ↦ absurd (ground arith)
      | inr (c, cs, e) ↦ ground arith
    ]

module _ (fits : Text → Bool) where
  -- The text of a positive serial, whose line fits.
  abbrev pub IsSerial : Text → Type 0
  IsSerial t = (n : ℕ) × (0 < n) × (t ≡ serial_text n) × (fits t ≡ true)

  lines-print_lines : (ts : List Text) → All IsSerial ts → lines (print_lines ts) ≡ ts
  unfolding print_lines lines
  lines-print_lines [] h = refl
  lines-print_lines (t ∷ ts) h =
      let (n, pos, e, f) = h.0 in
      let hex : all_hex t ≡ true = rw e (all_hex-serial_text n) in
      lines-append t (print_lines ts) hex ∙ ap (◌∷◌ t) (lines-print_lines ts h.1)

  parse_lines-serials :
      (set ts : List Text)
      → All IsSerial ts
      → (set' : List Text) × (parse_lines fits set ts ≡ ok set')
        × ((t : Text) → contains t set' ≡ (if contains t ts then true else contains t set))
  unfolding parse_lines contains
  parse_lines-serials set [] h = (set, refl, λ t. refl)
  parse_lines-serials set (l ∷ ts) h =
      let (n, pos, e, f) = h.0 in
      let (set', done, has) = parse_lines-serials (add l set) ts h.1 in
      let parsed : parse_line l ≡ ok (some n) = rw e (parse_line-serial_text n pos) in
      (set', ground arith, λ t. ground (arith, has t, contains-add t l set))

  -- If the serials are texts of positive numbers that fit the scanner, the list that `ca crl`
  -- writes of them parses to the same set of serials.
  pub parse_revoked_serials-revoked_list :
      (set : List Text)
      → All IsSerial set
      → (set' : List Text) × (parse_revoked_serials fits (revoked_list set) ≡ ok set')
        × ((t : Text) → contains t set' ≡ contains t set)
  unfolding parse_revoked_serials revoked_list
  parse_revoked_serials-revoked_list set h =
      let sorted = All-sort IsSerial set h in
      let (set', done, has) = parse_lines-serials [] (sort set) sorted in
      (
        set',
        ap (parse_lines fits []) (lines-print_lines (sort set) sorted) ∙ done,
        λ t. unfold contains in ground (arith, has t, contains-sort t set),
      )
