-- ===== src/Listen/Quiet.antt =====
-- internal/listen/listen.go: what is reported once ctx has ended.
use ggrok.Prelude.{
  ◌≡◌, refl, Bool, true, List, [], ◌∷◌, Option-cases, Bool-cases, inl, inr, All, All-append, arith,
}
use ggrok.Peer.Slots.{take_slot, free_slot}
use ggrok.Listen.{
  Failure, Action, starts, splices, closes, reports, not_ready, limit_reached, open_failed,
  Listener, Step, accepts, finishes, becomes_ready, disconnects, serve_ends, cancels, report,
  accept, forward, finish_forward, step, run,
}

-- A report.
abbrev pub IsQuiet : Action → Type 0
IsQuiet (starts conn port) = Unit {0}
IsQuiet (splices conn) = Unit {0}
IsQuiet (closes conn) = Unit {0}
IsQuiet (reports f) = ⊥

module _ (has_report : Bool) where
  report_silent : (f : Failure) (l : Listener) → l.canceled ≡ true → report has_report f l ≡ []
  unfolding report
  report_silent f l h = ground arith

  step-IsQuiet :
      (x : Step) (l : Listener)
      → l.canceled ≡ true
      → All IsQuiet (step has_report x l).0 × ((step has_report x l).1.canceled ≡ true)
  unfolding step accept finish_forward forward
  step-IsQuiet (accepts conn port) l h =
      let a = report_silent not_ready l h in
      let b = report_silent limit_reached l h in
      elim (Bool-cases l.ready) [
        | inr waiting ↦
            let did : (accept has_report conn port l).0 ≡ closes conn ∷ [] = ground arith in
            (rw did (tt, tt), ground arith)
        | inl on ↦ elim (Bool-cases (take_slot conn l.active).0) [
          | inr full ↦
              let did : (accept has_report conn port l).0 ≡ closes conn ∷ [] = ground arith in
              (rw did (tt, tt), ground arith)
          | inl free ↦
              let did : (accept has_report conn port l).0 ≡ starts conn port ∷ [] = ground arith in
              (rw did (tt, tt), ground arith)
        ]
      ]
  step-IsQuiet (finishes slot opened) l h =
      let b = report_silent open_failed l h in
      elim (Option-cases (free_slot slot l.active).0) [
        | inl idle ↦
            let did : (finish_forward has_report slot opened l).0 ≡ [] = ground arith in
            (rw did tt, ground arith)
        | inr (conn, q) ↦ elim (Bool-cases opened) [
          | inl done ↦
              let did : (finish_forward has_report slot opened l).0 ≡ splices conn ∷ [] =
                ground arith in
              (rw did (tt, tt), ground arith)
          | inr broken ↦
              let did : (finish_forward has_report slot opened l).0 ≡ closes conn ∷ [] =
                ground arith in
              (rw did (tt, tt), ground arith)
        ]
      ]
  step-IsQuiet becomes_ready l h = (tt, h)
  step-IsQuiet disconnects l h = (tt, h)
  step-IsQuiet serve_ends l h = (tt, refl)
  step-IsQuiet cancels l h = (tt, refl)

  -- Once ctx has ended, no failure is reported any more.
  pub run-IsQuiet :
      (xs : List Step) (l : Listener) → l.canceled ≡ true → All IsQuiet (run has_report xs l).0
  unfolding run
  run-IsQuiet [] l h = tt
  run-IsQuiet (x ∷ xs) l h =
      let (now, over) = step-IsQuiet x l h in
      All-append IsQuiet (step has_report x l).0 (run has_report xs (step has_report x l).1).0 now
        (run-IsQuiet xs (step has_report x l).1 over)
