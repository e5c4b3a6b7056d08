-- ===== src/Examples/Splice.antt =====
-- A splice of two directions that end one after the other, with a counter that wraps.
use ggrok.Prelude.{◌+◌, ◌%◌, ◌^◌, ◌≡◌, refl, arith, List, [], ◌∷◌, some}
use ggrok.Splice.{
  a, b, Step, writes, copies, ends, count, copy, step, run, splice, both_copied, returned,
}
use ggrok.Splice.Counts.{closes_a, closes_b, run-returned}

abbrev steps : List Step
steps =
    writes a 5
    ∷ writes b 2
    ∷ copies b
    ∷ ends b
    ∷ copies a
    ∷ writes a 1
    ∷ copies a
    ∷ writes b 9
    ∷ ends a
    ∷ []

steps_return : returned (run steps (splice (some (18446744073709551614, 0)))).1 ≡ some (6, 2)
unfolding returned both_copied run step count copy
steps_return = refl

run-returned_example :
    ((run steps (splice (some (18446744073709551614, 0)))).1.counter
      ≡ some ((18446744073709551614 + 6) % 2 ^ 64, (0 + 2) % 2 ^ 64))
    × (closes_a (run steps (splice (some (18446744073709551614, 0)))).0 ≡ 1)
    × (closes_b (run steps (splice (some (18446744073709551614, 0)))).0 ≡ 1)
run-returned_example =
    run-returned 18446744073709551614 0 6 2 steps (omega arith) (omega arith) steps_return
