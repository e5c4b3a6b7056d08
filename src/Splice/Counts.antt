-- ===== src/Splice/Counts.antt =====
-- internal/streamio/splice.go: the counter shows what is returned in the end, and each side is closed
-- once.
use ggrok.Prelude.{
  ℕ, suc, ◌+◌, ◌%◌, ◌^◌, ◌<◌, ◌≡◌, ◌⊎◌, refl, List, [], ◌∷◌, ◌++◌, some, inl, inr, arith,
}
use ggrok.Splice.{
  Phase, copying, finished, took, Direction, Splicing, Side, a, b, Step, writes, copies, ends,
  count, copy, step, run, splice, both_copied, returned,
}

-- How often a side is among those closed.
unfoldable pub closes_a : List Side → ℕ
closes_a [] = 0
closes_a (a ∷ xs) = suc (closes_a xs)
closes_a (b ∷ xs) = closes_a xs

unfoldable pub closes_b : List Side → ℕ
closes_b [] = 0
closes_b (a ∷ xs) = closes_b xs
closes_b (b ∷ xs) = suc (closes_b xs)

closes_a-append : (xs ys : List Side) → closes_a (xs ++ ys) ≡ closes_a xs + closes_a ys
unfolding closes_a
closes_a-append [] ys = omega arith
closes_a-append (a ∷ xs) ys = omega (arith, closes_a-append xs ys)
closes_a-append (b ∷ xs) ys = closes_a-append xs ys

closes_b-append : (xs ys : List Side) → closes_b (xs ++ ys) ≡ closes_b xs + closes_b ys
unfolding closes_b
closes_b-append [] ys = omega arith
closes_b-append (a ∷ xs) ys = closes_b-append xs ys
closes_b-append (b ∷ xs) ys = omega (arith, closes_b-append xs ys)

Phase-cases : (p : Phase) → (p ≡ copying) ⊎ (((n : ℕ) × (p ≡ took n)) ⊎ (p ≡ finished))
Phase-cases copying = inl refl
Phase-cases (took n) = inr (inl (n, refl))
Phase-cases finished = inr (inr refl)

unfoldable over : Phase → ℕ
over copying = 0
over (took n) = 0
over finished = 1

abbrev Closes : List Side → Splicing → Splicing → Type 0
Closes xs s s' =
    (closes_a xs + over s.into_a.phase ≡ over s'.into_a.phase)
    × (closes_b xs + over s.into_b.phase ≡ over s'.into_b.phase)

step-Closes : (t : Step) (s : Splicing) → Closes (step t s).0 s (step t s).1
unfolding step closes_a closes_b copy over
step-Closes (writes a n) s = ground (arith, Phase-cases s.into_a.phase)
step-Closes (writes b n) s = ground (arith, Phase-cases s.into_b.phase)
step-Closes (copies a) s = ground (arith, Phase-cases s.into_a.phase)
step-Closes (copies b) s = ground (arith, Phase-cases s.into_b.phase)
step-Closes (ends a) s = ground (arith, Phase-cases s.into_a.phase)
step-Closes (ends b) s = ground (arith, Phase-cases s.into_b.phase)

run-Closes : (ts : List Step) (s : Splicing) → Closes (run ts s).0 s (run ts s).1
unfolding run closes_a closes_b
run-Closes [] s = (omega arith, omega arith)
run-Closes (t ∷ ts) s =
    let now = step-Closes t s in
    let later = run-Closes ts (step t s).1 in
    let x = closes_a-append (step t s).0 (run ts (step t s).1).0 in
    let y = closes_b-append (step t s).0 (run ts (step t s).1).0 in
    (omega (arith, now.0, later.0, x), omega (arith, now.1, later.1, y))

-- What a Write took that io.Copy has not added yet.
unfoldable in_hand : Phase → ℕ
in_hand copying = 0
in_hand (took n) = n
in_hand finished = 0

-- The counter runs ahead of io.Copy by what a Write took last.
abbrev counted : ℕ → Direction → ℕ
counted x d = (x + (d.copied + in_hand d.phase)) % 2 ^ 64

abbrev Matches : ℕ → ℕ → Splicing → Type 0
Matches x y s = s.counter ≡ some (counted x s.into_a, counted y s.into_b)

step-Matches : (x y : ℕ) (t : Step) (s : Splicing) → Matches x y s → Matches x y (step t s).1
unfolding step count copy in_hand
step-Matches x y (writes a n) s h = ground (arith, Phase-cases s.into_a.phase)
step-Matches x y (writes b n) s h = ground (arith, Phase-cases s.into_b.phase)
step-Matches x y (copies a) s h = ground (arith, Phase-cases s.into_a.phase)
step-Matches x y (copies b) s h = ground (arith, Phase-cases s.into_b.phase)
step-Matches x y (ends a) s h = ground (arith, Phase-cases s.into_a.phase)
step-Matches x y (ends b) s h = ground (arith, Phase-cases s.into_b.phase)

run-Matches : (x y : ℕ) (ts : List Step) (s : Splicing) → Matches x y s → Matches x y (run ts s).1
unfolding run
run-Matches x y [] s h = h
run-Matches x y (t ∷ ts) s h = run-Matches x y ts (step t s).1 (step-Matches x y t s h)

both_copied-some :
    (p q : Phase) (k l : ℕ) {m n : ℕ}
    → both_copied p q k l ≡ some (m, n)
    → (p ≡ finished) × (q ≡ finished) × (k ≡ m) × (l ≡ n)
unfolding both_copied
both_copied-some finished finished k l e = ground arith
both_copied-some finished copying k l e = absurd (ground arith)
both_copied-some finished (took j) k l e = absurd (ground arith)
both_copied-some copying q k l e = absurd (ground arith)
both_copied-some (took j) q k l e = absurd (ground arith)

-- In any interleaving of a splice whose Counter starts with two 64-bit numbers, once it returns,
-- the Counter has grown by the bytes that it returns for each side, modulo 2 ^ 64, and each side
-- was closed exactly once.
pub run-returned :
    (x y m n : ℕ) (ts : List Step)
    → x < 2 ^ 64
    → y < 2 ^ 64
    → returned (run ts (splice (some (x, y)))).1 ≡ some (m, n)
    → ((run ts (splice (some (x, y)))).1.counter ≡ some ((x + m) % 2 ^ 64, (y + n) % 2 ^ 64))
      × (closes_a (run ts (splice (some (x, y)))).0 ≡ 1)
      × (closes_b (run ts (splice (some (x, y)))).0 ≡ 1)
unfolding returned over in_hand
run-returned x y m n ts u v e =
    let start : Matches x y (splice (some (x, y))) = ground arith in
    let held = run-Matches x y ts (splice (some (x, y))) start in
    let once = run-Closes ts (splice (some (x, y))) in
    let s = (run ts (splice (some (x, y)))).1 in
    let (p, q, k, l) =
      both_copied-some s.into_a.phase s.into_b.phase s.into_a.copied s.into_b.copied {m = m} {n = n}
        e in
    (ground arith, ground arith, ground arith)
