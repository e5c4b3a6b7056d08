-- ===== src/Cmd/Status.antt =====
-- cmd/ggrok/status.go: the reporter of failed forwards, which bounds what concurrent failures print.
-- A time is in nanoseconds, and 0 is the zero time. An error is of a type that is a parameter.
pub mod Failures
use ggrok.Prelude.{
  ℕ, suc, ◌+◌, ◌-◌, Bool, true, false, not, ◌&&◌, List, [], ◌∷◌, Option, none, some, ltb, ◌==◌,
  if◌then◌else◌,
}
use ggrok.Relay.Session.{next_u64}

abbrev pub forward_error_interval : ℕ
forward_error_interval = 5000000000

-- `forwardErrorReporter` without its mutex: a report is one step.
pub record Reporter : Type 0 where
  pub last : ℕ
  pub suppressed : ℕ

unfoldable pub new_reporter : Reporter
new_reporter = record { last = 0; suppressed = 0 }

-- A line that was printed: when, of which error, and how many additional failures it names.
pub record Line (E : Type 0) : Type 0 where
  pub printed_at : ℕ
  pub error : E
  pub additional : ℕ

module _ {E : Type 0} where
  unfoldable pub report : Reporter → E → ℕ → Option (Line E) × Reporter
  report r e now =
      if not (r.last == 0) && ltb (now - r.last) forward_error_interval
      then (none, record r { suppressed = next_u64 r.suppressed })
      else (
        some (record { printed_at = now; error = e; additional = r.suppressed }),
        record { last = now; suppressed = 0 },
      )

  -- What is printed of failures that come one after the other, and the reporter after them.
  unfoldable pub report_all : Reporter → List (E × ℕ) → List (Line E) × Reporter
  report_all r [] = ([], r)
  report_all r ((e, now) ∷ failures) =
      let (printed, r') = report r e now in
      let (later, r'') = report_all r' failures in
      elim printed [ none ↦ (later, r'') | some line ↦ (line ∷ later, r'') ]
