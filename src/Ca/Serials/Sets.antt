-- ===== src/Ca/Serials/Sets.antt =====
-- internal/ca/ca.go, cmd/ggrok/ca.go: sets of texts, which maps with empty values are, and their sorting.
use ggrok.Prelude.{
  ◌≡◌, refl, true, List, [], ◌∷◌, inl, inr, Bool-cases, All, arith, if◌then◌else◌, same_bytes,
  same_bytes→eq,
}
use ggrok.Ca.Serials.{Text, contains, add, text_le, insert_sorted, sort}

pub contains-add :
    (t u : Text) (set : List Text)
    → contains t (add u set) ≡ (if same_bytes u t then true else contains t set)
unfolding add contains
contains-add t u set = elim (Bool-cases (contains u set)) [
  | inr fresh ↦ ground arith
  | inl there ↦ elim (Bool-cases (same_bytes u t)) [
    | inr other ↦ ground arith
    | inl same ↦ let e = same_bytes→eq u t same in ground arith
  ]
]

pub contains-insert_sorted :
    (t u : Text) (set : List Text)
    → contains t (insert_sorted u set) ≡ (if same_bytes u t then true else contains t set)
unfolding insert_sorted contains
contains-insert_sorted t u [] = refl
contains-insert_sorted t u (x ∷ set) = elim (Bool-cases (text_le u x)) [
  | inl first ↦ ground arith
  | inr later ↦ ground (arith, contains-insert_sorted t u set)
]

pub contains-sort : (t : Text) (set : List Text) → contains t (sort set) ≡ contains t set
unfolding sort contains
contains-sort t [] = refl
contains-sort t (x ∷ set) =
    ground (arith, contains-insert_sorted t x (sort set), contains-sort t set)

module _ {κ} (P : Text → Type κ) where
  All-insert_sorted : (t : Text) (set : List Text) → P t → All P set → All P (insert_sorted t set)
  unfolding insert_sorted
  All-insert_sorted t [] p h = (p, tt)
  All-insert_sorted t (x ∷ set) p h = elim (Bool-cases (text_le t x)) [
    | inl first ↦ rw first (p, h)
    | inr later ↦ rw later (h.0, All-insert_sorted t set p h.1)
  ]

  pub All-sort : (set : List Text) → All P set → All P (sort set)
  unfolding sort
  All-sort [] h = tt
  All-sort (x ∷ set) h = All-insert_sorted x (sort set) h.0 (All-sort set h.1)

  pub All-contains : (t : Text) (set : List Text) → All P set → contains t set ≡ true → P t
  unfolding contains
  All-contains t [] h e = absurd (ground arith)
  All-contains t (x ∷ set) h e = elim (Bool-cases (same_bytes x t)) [
    | inl same ↦ rw (same_bytes→eq x t same) at h.0
    | inr other ↦ All-contains t set h.1 (ground arith)
  ]
