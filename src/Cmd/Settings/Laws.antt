-- ===== src/Cmd/Settings/Laws.antt =====
-- cmd/ggrok/secrets.go: a secret that is written to a file is read back.
use mathlib.Core.List.{reverse-append, reverse-reverse, reverse-cons}
use ggrok.Prelude.{
  ℕ, zero, suc, ◌+◌, ◌≤◌, ◌<◌, ◌≡◌, ◌∙◌, refl, ap, true, false, [], ◌∷◌, ◌++◌, Option, none, some,
  ok, length, length-append, take, reverse, arith, All, All-append,
}
use ggrok.Ca.Serials.{Text, is_space, trim_left, trim_space}
use ggrok.Cmd.Settings.{max_secret_bytes, non_empty, read_secret_file, write_secret_file}

abbrev pub NotSpace : ℕ → Type 0
NotSpace c = is_space c ≡ false

trim_left-plain : (s : Text) → All NotSpace s → trim_left s ≡ s
unfolding trim_left
trim_left-plain [] h = refl
trim_left-plain (c ∷ cs) h = ground (arith, h.0)

reverse-NotSpace : (s : Text) → All NotSpace s → All NotSpace (reverse s)
reverse-NotSpace [] h = tt
reverse-NotSpace (c ∷ s) h =
    rw (reverse-cons c s)
      (All-append NotSpace (reverse s) (c ∷ []) (reverse-NotSpace s h.1) (h.0, tt))

trim_left-break : (s : Text) → trim_left (10 ∷ s) ≡ trim_left s
unfolding trim_left is_space
trim_left-break s = refl

trim_space-line : (s : Text) → All NotSpace s → trim_space (s ++ 10 ∷ []) ≡ s
unfolding trim_space trim_left
trim_space-line [] h = ap (λ (t : Text). reverse (trim_left (reverse t))) (trim_left-break [])
trim_space-line (c ∷ s) h =
    let whole : Text = (c ∷ s) ++ 10 ∷ [] in
    let first : trim_left whole ≡ whole = unfold trim_left in ground (arith, h.0) in
    ap (λ (t : Text). reverse (trim_left (reverse t))) first
    ∙ ap (λ (t : Text). reverse (trim_left t)) (reverse-append (c ∷ s) (10 ∷ []))
    ∙ ap reverse (trim_left-break (reverse (c ∷ s)))
    ∙ ap reverse (trim_left-plain (reverse (c ∷ s)) (reverse-NotSpace (c ∷ s) h))
    ∙ reverse-reverse (c ∷ s)

take-all_of : (n : ℕ) (s : Text) → length s ≤ n → take n s ≡ s
take-all_of zero [] h = refl
take-all_of zero (c ∷ s) h = absurd (omega (arith, h))
take-all_of (suc n) [] h = refl
take-all_of (suc n) (c ∷ s) h = ap (λ (t : Text). c ∷ t) (take-all_of n s (omega (arith, h)))

-- A secret without white space, of at least one and fewer than 4096 characters, is read back from
-- the fresh file that it was written to.
pub read_secret_file-write :
    (secret : Text) {t : Option Text}
    → All NotSpace secret
    → 0 < length secret
    → length secret < max_secret_bytes
    → write_secret_file true none secret none ≡ (none, t)
    → read_secret_file t ≡ ok secret
unfolding read_secret_file write_secret_file non_empty
read_secret_file-write [] h pos small e = absurd (omega (arith, pos))
read_secret_file-write (c ∷ s) {t} h pos small e =
    let line : Text = (c ∷ s) ++ 10 ∷ [] in
    let size = length-append (c ∷ s) (10 ∷ []) in
    let all = take-all_of (max_secret_bytes + 1) line (omega (arith, size, small)) in
    let trimmed = trim_space-line (c ∷ s) h in
    let its : t ≡ some line = ground arith in
    let data_read : read_secret_file (some line) ≡ non_empty (trim_space line) =
      unfold read_secret_file in rw all (ground (arith, size)) in
    ap read_secret_file its ∙ data_read ∙ ap non_empty trimmed
