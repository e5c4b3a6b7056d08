-- ===== src/Ca/Serials/Hex.antt =====
-- internal/ca/ca.go: a serial number and its text.
use mathlib.Core.List.{reverse-reverse, reverse-cons}
use ggrok.Prelude.{
  ℕ, zero, suc, ◌+◌, ◌*◌, ◌/◌, ◌%◌, ◌≤◌, ◌<◌, ◌≡◌, refl, ap, ◌∙◌, true, false, [], ◌∷◌, ◌++◌,
  reverse, inl, inr, Bool-cases, arith, ltb,
}
use ggrok.Ca.Serials.{
  Text, digit_char, text_from, serial_text, hex_char, hex_value, all_hex, hex_number, is_space,
  trim_left, trim_space,
}

hex_value-digit_char : (d : ℕ) → d < 16 → hex_value (digit_char d) ≡ d
unfolding hex_value
hex_value-digit_char d h = ground arith

hex_char-digit_char : (d : ℕ) → d < 16 → hex_char (digit_char d) ≡ true
unfolding hex_char
hex_char-digit_char d h = ground arith

hex_number-append :
    (acc : ℕ) (s : Text) (c : ℕ)
    → hex_number acc (s ++ c ∷ []) ≡ hex_number acc s * 16 + hex_value c
unfolding hex_number
hex_number-append acc [] c = refl
hex_number-append acc (x ∷ s) c = hex_number-append (acc * 16 + hex_value x) s c

hex_number-text_from : (rounds n : ℕ) → n ≤ rounds → hex_number 0 (text_from rounds n) ≡ n
unfolding text_from hex_number
hex_number-text_from zero n h = ground (arith, hex_value-digit_char (n % 16))
hex_number-text_from (suc rounds) n h = elim (Bool-cases (ltb n 16)) [
  | inl small ↦ ground (arith, hex_value-digit_char n)
  | inr large ↦
      let front = hex_number-text_from rounds (n / 16) (ground arith) in
      let back = hex_number-append 0 (text_from rounds (n / 16)) (digit_char (n % 16)) in
      let last = hex_value-digit_char (n % 16) (omega arith) in ground arith
]

pub all_hex-append : (s t : Text) → all_hex s ≡ true → all_hex t ≡ true → all_hex (s ++ t) ≡ true
unfolding all_hex
all_hex-append [] t p q = q
all_hex-append (c ∷ s) t p q = ground (arith, all_hex-append s t)

all_hex-text_from : (rounds n : ℕ) → all_hex (text_from rounds n) ≡ true
unfolding text_from all_hex
all_hex-text_from zero n = ground (arith, hex_char-digit_char (n % 16))
all_hex-text_from (suc rounds) n = elim (Bool-cases (ltb n 16)) [
  | inl small ↦ ground (arith, hex_char-digit_char n)
  | inr large ↦
      let last : all_hex (digit_char (n % 16) ∷ []) ≡ true =
        ground (arith, hex_char-digit_char (n % 16) (omega arith)) in
      let both =
        all_hex-append (text_from rounds (n / 16)) (digit_char (n % 16) ∷ [])
          (all_hex-text_from rounds (n / 16)) last in
      ground arith
]

pub hex_number-serial_text : (n : ℕ) → hex_number 0 (serial_text n) ≡ n
unfolding serial_text
hex_number-serial_text n = hex_number-text_from n n (omega arith)

pub all_hex-serial_text : (n : ℕ) → all_hex (serial_text n) ≡ true
unfolding serial_text
all_hex-serial_text n = all_hex-text_from n n

pub serial_text-injective : (m n : ℕ) → serial_text m ≡ serial_text n → m ≡ n
serial_text-injective m n e =
    ground (arith, hex_number-serial_text m, hex_number-serial_text n, ap (hex_number 0) e)

hex_char-space : (c : ℕ) → hex_char c ≡ true → is_space c ≡ false
unfolding hex_char is_space
hex_char-space c h = ground arith

trim_left-hex : (s : Text) → all_hex s ≡ true → trim_left s ≡ s
unfolding trim_left all_hex
trim_left-hex [] h = refl
trim_left-hex (c ∷ s) h = ground (arith, hex_char-space c)

all_hex-reverse : (s : Text) → all_hex s ≡ true → all_hex (reverse s) ≡ true
unfolding all_hex
all_hex-reverse [] h = refl
all_hex-reverse (c ∷ s) h =
    rw (reverse-cons c s)
      (all_hex-append (reverse s) (c ∷ []) (all_hex-reverse s (ground arith)) (ground arith))

-- A text of digits has nothing to trim.
pub trim_space-hex : (s : Text) → all_hex s ≡ true → trim_space s ≡ s
unfolding trim_space
trim_space-hex s h =
    ap (λ (t : Text). reverse (trim_left (reverse t))) (trim_left-hex s h)
    ∙ ap reverse (trim_left-hex (reverse s) (all_hex-reverse s h))
    ∙ reverse-reverse s
