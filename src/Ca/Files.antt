-- ===== src/Ca/Files.antt =====
-- The files of one directory, by their base names.
use ggrok.Prelude.{
  ◌≡◌, false, List, [], ◌∷◌, Option, none, some, inl, inr, Bool-cases, arith, if◌then◌else◌,
  same_bytes, same_bytes→eq,
}
use ggrok.Ca.Serials.{Text}

module _ {ℓ} {E : Type ℓ} where
  unfoldable pub find : Text → List (Text × E) → Option E
  find n [] = none
  find n ((m, e) ∷ fs) = if same_bytes m n then some e else find n fs

  unfoldable pub drop_file : Text → List (Text × E) → List (Text × E)
  drop_file n [] = []
  drop_file n ((m, e) ∷ fs) = if same_bytes m n then drop_file n fs else (m, e) ∷ drop_file n fs

  -- Create the file, or put it in another's place.
  unfoldable pub put : Text → E → List (Text × E) → List (Text × E)
  put n e fs = (n, e) ∷ drop_file n fs

  -- Every name is there once.
  abbrev pub DistinctFiles : List (Text × E) → Type ℓ
  DistinctFiles [] = Unit {ℓ}
  DistinctFiles ((n, e) ∷ fs) = (find n fs ≡ none) × DistinctFiles fs

  pub find-drop_file :
      (n m : Text) (fs : List (Text × E))
      → find m (drop_file n fs) ≡ (if same_bytes n m then none else find m fs)
  unfolding find drop_file
  find-drop_file n m [] = elim (Bool-cases (same_bytes n m)) [
    | inl p ↦ ground arith
    | inr p ↦ ground arith
  ]
  find-drop_file n m ((k, e) ∷ fs) =
      let rest = find-drop_file n m fs in
      elim (Bool-cases (same_bytes k n)) [
        | inl hit ↦
            let same = same_bytes→eq k n hit in
            elim (Bool-cases (same_bytes n m)) [
              | inl p ↦ ground arith
              | inr p ↦ let q : same_bytes k m ≡ false = rw same p in ground arith
            ]
        | inr miss ↦ elim (Bool-cases (same_bytes n m)) [
          | inl p ↦
              let same = same_bytes→eq n m p in
              let q : same_bytes k m ≡ false = rw same at miss in ground arith
          | inr p ↦ ground arith
        ]
      ]
