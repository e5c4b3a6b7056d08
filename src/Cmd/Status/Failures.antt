-- ===== src/Cmd/Status/Failures.antt =====
-- cmd/ggrok/status.go: what the reporter of failed forwards prints.
use ggrok.Prelude.{
  ℕ, suc, ◌+◌, ◌≡◌, ◌≢◌, ◌<◌, ◌≤◌, ◌⊎◌, ◌^◌, refl, List, [], ◌∷◌, none, some, length, arith, inl,
  inr,
}
use ggrok.Relay.Session.{next_u64}
use ggrok.Cmd.Status.{Reporter, Line, new_reporter, forward_error_interval, report, report_all}

module _ {E : Type 0} where
  -- How many failures the lines stand for: each for its own and the additional ones.
  unfoldable pub told : List (Line E) → ℕ
  told [] = 0
  told (line ∷ lines) = suc (line.additional + told lines)

  -- Every line is an interval at least after the one before it.
  unfoldable pub IsSpaced : ℕ → List (Line E) → Type 0
  IsSpaced last [] = Unit
  IsSpaced last (line ∷ lines) =
      (last + forward_error_interval ≤ line.printed_at) × IsSpaced line.printed_at lines

  -- To split on a report: it is counted only, or it prints what was counted.
  report_cases :
      (r : Reporter) (e : E) (now : ℕ)
      → (report r e now ≡ (none, record r { suppressed = next_u64 r.suppressed }))
        ⊎ (((r.last ≡ 0) ⊎ (r.last + forward_error_interval ≤ now))
            × (report r e now ≡ (
              some (record { printed_at = now; error = e; additional = r.suppressed }),
              record { last = now; suppressed = 0 },
            )))
  unfolding report
  report_cases r e now = ground arith

  told-report_all :
      (failures : List (E × ℕ)) (r : Reporter)
      → r.suppressed + length failures < 2 ^ 64
      → told (report_all r failures).0 + (report_all r failures).1.suppressed
        ≡ r.suppressed + length failures
  unfolding told report_all
  told-report_all [] r h = ground arith
  told-report_all ((e, now) ∷ failures) r h = elim (report_cases r e now) [
    | inl q ↦
        let later =
          told-report_all failures (record r { suppressed = next_u64 r.suppressed })
            (omega arith) in
        rw (report_all, q, q) (omega (arith, later))
    | inr (_, q) ↦
        let later =
          told-report_all failures (record { last = now; suppressed = 0 }) (omega arith) in
        rw (report_all, q, q) (omega (arith, later))
  ]

  report_all-IsSpaced :
      (failures : List (E × ℕ)) (r : Reporter)
      → r.last ≢ 0
      → IsSpaced r.last (report_all r failures).0
  unfolding IsSpaced report_all
  report_all-IsSpaced [] r h = tt
  report_all-IsSpaced ((e, now) ∷ failures) r h = elim (report_cases r e now) [
    | inl q ↦
        rw (IsSpaced, report_all, q, q)
          (report_all-IsSpaced failures (record r { suppressed = next_u64 r.suppressed }) h)
    | inr (inl z, q) ↦ absurd (h z)
    | inr (inr d, q) ↦
        rw (IsSpaced, report_all, q, q)
          (d, report_all-IsSpaced failures (record { last = now; suppressed = 0 }) (omega arith))
  ]

  -- From a new reporter, if the first failure is not at the zero time and there are fewer than 2 ^
  -- 64 failures, the first is printed at once, every later line is printed 5 s at least after the
  -- line before it, and the lines, with what each says was suppressed, and what is still
  -- suppressed account for every failure.
  pub report_all-accounts :
      (e : E) (now : ℕ) (failures : List (E × ℕ))
      → now ≢ 0
      → suc (length failures) < 2 ^ 64
      → (later : List (Line E)) × ((report_all new_reporter ((e, now) ∷ failures)).0
          ≡ record { printed_at = now; error = e; additional = 0 } ∷ later)
        × IsSpaced now later
        × (told (report_all new_reporter ((e, now) ∷ failures)).0
              + (report_all new_reporter ((e, now) ∷ failures)).1.suppressed
            ≡ suc (length failures))
  unfolding new_reporter report_all report
  report_all-accounts e now failures z h = (
    (report_all (record { last = now; suppressed = 0 }) failures).0,
    refl,
    report_all-IsSpaced failures (record { last = now; suppressed = 0 }) z,
    omega (arith, told-report_all ((e, now) ∷ failures) new_reporter (omega (arith, h))),
  )
