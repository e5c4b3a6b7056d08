-- ===== src/Prelude/Maps.antt =====
-- Go maps with numeric keys, as association lists without order: a write puts the binding first
-- after removing an older one, so a key is bound once at most.
use Prim.Native.Nat.{ℕ, suc, ◌≤◌, ◌<◌}
use mathlib.Core.Path.{◌≡◌, refl, ◌∙◌}
use mathlib.Core.Option.{Option, none, some}
use mathlib.Core.List.{List, [], ◌∷◌}
use native.Mathlib.Omega.{arith}
use ggrok.Prelude.Lists.{length}
use ggrok.Prelude.Tests.{◌==◌, if◌then◌else◌}

module _ {ℓ} {V : Type ℓ} where
  unfoldable pub lookup : ℕ → List (ℕ × V) → Option V
  lookup k [] = none
  lookup k ((j, v) ∷ m) = if j == k then some v else lookup k m

  unfoldable pub erase : ℕ → List (ℕ × V) → List (ℕ × V)
  erase k [] = []
  erase k ((j, v) ∷ m) = if j == k then erase k m else (j, v) ∷ erase k m

  unfoldable pub insert : ℕ → V → List (ℕ × V) → List (ℕ × V)
  insert k v m = (k, v) ∷ erase k m

  pub lookup-erase :
      (k j : ℕ) (m : List (ℕ × V)) → lookup j (erase k m) ≡ (if k == j then none else lookup j m)
  unfolding lookup erase
  lookup-erase k j [] = ground arith
  lookup-erase k j ((i, v) ∷ m) = ground (arith, lookup-erase k j m)

  pub lookup-insert :
      (k j : ℕ) (v : V) (m : List (ℕ × V))
      → lookup j (insert k v m) ≡ (if k == j then some v else lookup j m)
  unfolding lookup insert
  lookup-insert k j v m = ground (arith, lookup-erase k j m)

  pub length-erase-le : (k : ℕ) (m : List (ℕ × V)) → length (erase k m) ≤ length m
  unfolding erase
  length-erase-le k [] = omega arith
  length-erase-le k ((j, v) ∷ m) = ground (arith, length-erase-le k m)

  pub length-insert-le : (k : ℕ) (v : V) (m : List (ℕ × V)) → length (insert k v m) ≤ suc (length m)
  unfolding insert
  length-insert-le k v m = omega (arith, length-erase-le k m)

  pub length-erase-lt :
      (k : ℕ) (m : List (ℕ × V)) {v : V} → lookup k m ≡ some v → length (erase k m) < length m
  unfolding lookup erase
  length-erase-lt k [] e = ground arith
  length-erase-lt k ((j, w) ∷ m) {v} e =
      ground (arith, length-erase-le k m, length-erase-lt k m {v = v})

  -- A key is bound once at most.
  abbrev pub Distinct : List (ℕ × V) → Type ℓ
  Distinct [] = Unit {ℓ}
  Distinct ((k, v) ∷ m) = (lookup k m ≡ none) × Distinct m

  -- Every key is below a bound.
  abbrev pub Below : ℕ → List (ℕ × V) → Type 0
  Below n [] = Unit {0}
  Below n ((k, v) ∷ m) = (k < n) × Below n m

  pub erase-Distinct : (k : ℕ) (m : List (ℕ × V)) → Distinct m → Distinct (erase k m)
  unfolding erase
  erase-Distinct k [] d = tt
  erase-Distinct k ((j, v) ∷ m) d = ground (arith, lookup-erase k j m, erase-Distinct k m d.1)

  pub insert-Distinct : (k : ℕ) (v : V) (m : List (ℕ × V)) → Distinct m → Distinct (insert k v m)
  unfolding insert
  insert-Distinct k v m d = (lookup-erase k k m ∙ ground arith, erase-Distinct k m d)

  pub Below-mono : (j k : ℕ) (m : List (ℕ × V)) → j ≤ k → Below j m → Below k m
  Below-mono j k [] h b = tt
  Below-mono j k ((i, v) ∷ m) h b = (omega arith, Below-mono j k m h b.1)

  pub erase-Below : (k n : ℕ) (m : List (ℕ × V)) → Below n m → Below n (erase k m)
  unfolding erase
  erase-Below k n [] b = tt
  erase-Below k n ((j, v) ∷ m) b = ground (arith, erase-Below k n m b.1)

  pub insert-Below :
      (k n : ℕ) (v : V) (m : List (ℕ × V)) → k < n → Below n m → Below n (insert k v m)
  unfolding insert
  insert-Below k n v m h b = (h, erase-Below k n m b)

  pub lookup-above : (k n : ℕ) (m : List (ℕ × V)) → n ≤ k → Below n m → lookup k m ≡ none
  unfolding lookup
  lookup-above k n [] h b = refl
  lookup-above k n ((j, v) ∷ m) h b = ground (arith, lookup-above k n m h b.1)

  pub erase_missing : (k : ℕ) (m : List (ℕ × V)) → lookup k m ≡ none → erase k m ≡ m
  unfolding lookup erase
  erase_missing k [] e = refl
  erase_missing k ((j, v) ∷ m) e = ground (arith, erase_missing k m)

  pub erase-insert : (k : ℕ) (v : V) (m : List (ℕ × V)) → erase k (insert k v m) ≡ erase k m
  unfolding erase insert
  erase-insert k v m = ground (arith, erase_missing k (erase k m), lookup-erase k k m)
