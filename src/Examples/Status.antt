-- ===== src/Examples/Status.antt =====
-- Failed forwards of which two are suppressed.
use ggrok.Prelude.{ℕ, ◌+◌, ◌≡◌, refl, arith, List, [], ◌∷◌}
use ggrok.Cmd.Status.{Line, new_reporter, report, report_all}
use ggrok.Cmd.Status.Failures.{told, IsSpaced, report_all-accounts}

abbrev later_failures : List (ℕ × ℕ)
later_failures = (8, 1000000001) ∷ (9, 5000000000) ∷ (7, 5000000001) ∷ []

second_line :
    (report_all new_reporter ((7, 1) ∷ later_failures)).0
    ≡ record { printed_at = 1; error = 7; additional = 0 }
      ∷ record { printed_at = 5000000001; error = 7; additional = 2 }
      ∷ []
unfolding new_reporter report report_all
second_line = refl

report_all-accounts_example :
    (later : List (Line ℕ)) × ((report_all new_reporter ((7, 1) ∷ later_failures)).0
      ≡ record { printed_at = 1; error = 7; additional = 0 } ∷ later)
    × IsSpaced 1 later
    × (told (report_all new_reporter ((7, 1) ∷ later_failures)).0
          + (report_all new_reporter ((7, 1) ∷ later_failures)).1.suppressed
        ≡ 4)
report_all-accounts_example = report_all-accounts 7 1 later_failures (omega arith) (omega arith)
