-- ===== src/Splice.antt =====
-- internal/streamio/splice.go: the two directions of a splice, in any interleaving. What one Write of
-- a destination takes is an argument, and so is when a direction is exhausted. io.Copy adds up the bytes
-- that its writes took, as its documentation says, once the Write has returned; its other paths
-- (WriterTo, ReaderFrom) are single steps that take many bytes. An int64 is its 64 bits, in two's
-- complement, so that a sum wraps as in Go.
pub mod Counts
use ggrok.Prelude.{ℕ, ◌+◌, ◌%◌, ◌^◌, List, [], ◌∷◌, ◌++◌, Option, none, some}

abbrev pub add_int64 : ℕ → ℕ → ℕ
add_int64 x n = (x + n) % 2 ^ 64

-- Where a copy is: between writes, behind a Write that took some bytes, or at its end.
pub data Phase : Type 0 where
  copying finished : Phase
  took : ℕ → Phase

-- A direction: what io.Copy has added up.
pub record Direction : Type 0 where
  pub copied : ℕ
  pub phase : Phase

abbrev pub new_direction : Direction
new_direction = record { copied = 0; phase = copying }

-- The two goroutines, and the Counter, none for nil.
pub record Splicing : Type 0 where
  pub into_a : Direction
  pub into_b : Direction
  pub counter : Option (ℕ × ℕ)

pub data Side : Type 0 where
  a b : Side

pub data Step : Type 0 where
  -- A Write into a side, with the countingWriter's Add; io.Copy takes its result; and the end of the
  -- copy into the side, with the close of it.
  writes : Side → ℕ → Step
  copies : Side → Step
  ends : Side → Step

-- The countingWriter's Add.
unfoldable pub count : Side → ℕ → Option (ℕ × ℕ) → Option (ℕ × ℕ)
count side n none = none
count a n (some (x, y)) = some (add_int64 x n, y)
count b n (some (x, y)) = some (x, add_int64 y n)

unfoldable pub copy : ℕ → Direction → Direction
copy n d = record { copied = add_int64 d.copied n; phase = copying }

-- A step that the goroutine is not at does nothing.
unfoldable pub step : Step → Splicing → List Side × Splicing
step (writes a n) s = elim s.into_a.phase [
  | copying ↦
      ([], record s { into_a = record s.into_a { phase = took n }; counter = count a n s.counter })
  | took m ↦ ([], s)
  | finished ↦ ([], s)
]
step (writes b n) s = elim s.into_b.phase [
  | copying ↦
      ([], record s { into_b = record s.into_b { phase = took n }; counter = count b n s.counter })
  | took m ↦ ([], s)
  | finished ↦ ([], s)
]
step (copies a) s = elim s.into_a.phase [
  | copying ↦ ([], s)
  | took n ↦ ([], record s { into_a = copy n s.into_a })
  | finished ↦ ([], s)
]
step (copies b) s = elim s.into_b.phase [
  | copying ↦ ([], s)
  | took n ↦ ([], record s { into_b = copy n s.into_b })
  | finished ↦ ([], s)
]
step (ends a) s = elim s.into_a.phase [
  | copying ↦ (a ∷ [], record s { into_a = record s.into_a { phase = finished } })
  | took n ↦ ([], s)
  | finished ↦ ([], s)
]
step (ends b) s = elim s.into_b.phase [
  | copying ↦ (b ∷ [], record s { into_b = record s.into_b { phase = finished } })
  | took n ↦ ([], s)
  | finished ↦ ([], s)
]

-- The sides that are closed, in order, and the state.
unfoldable pub run : List Step → Splicing → List Side × Splicing
run [] s = ([], s)
run (x ∷ xs) s = let (now, s') = step x s in let (later, s'') = run xs s' in (now ++ later, s'')

abbrev pub splice : Option (ℕ × ℕ) → Splicing
splice counter = record { into_a = new_direction; into_b = new_direction; counter = counter }

-- What splice returns, once both goroutines are done.
unfoldable pub both_copied : Phase → Phase → ℕ → ℕ → Option (ℕ × ℕ)
both_copied finished finished m n = some (m, n)
both_copied p q m n = none

unfoldable pub returned : Splicing → Option (ℕ × ℕ)
returned s = both_copied s.into_a.phase s.into_b.phase s.into_a.copied s.into_b.copied
