-- ===== src/Listen/Accounts.antt =====
-- internal/listen/listen.go: what becomes of every local connection, in any interleaving.
use ggrok.Prelude.{
  zero, none, some, Option, ◌==◌, if◌then◌else◌, ℕ, suc, ◌+◌, ◌≤◌, ◌≡◌, Bool, List, [], ◌∷◌, ◌++◌,
  Option-cases, Bool-cases, inl, inr, length, arith,
}
use ggrok.Peer.Session.{max_tunnels}
use ggrok.Peer.Slots.{take_slot, free_slot, take_slot-length, free_slot-length}
use ggrok.Listen.{
  Failure, Action, starts, splices, closes, reports, not_ready, limit_reached, open_failed,
  Listener, new_listener, Step, accepts, finishes, becomes_ready, disconnects, serve_ends, cancels,
  report, accept, forward, finish_forward, step, run,
}

-- How often a connection is among those in a slot.
unfoldable pub held : ℕ → List ℕ → ℕ
held c [] = 0
held c (conn ∷ active) = (if conn == c then 1 else 0) + held c active

-- How often the actions splice a connection, and how often they close it without a splice.
unfoldable pub spliced : ℕ → List Action → ℕ
spliced c [] = 0
spliced c (starts conn port ∷ xs) = spliced c xs
spliced c (splices conn ∷ xs) = (if conn == c then 1 else 0) + spliced c xs
spliced c (closes conn ∷ xs) = spliced c xs
spliced c (reports f ∷ xs) = spliced c xs

unfoldable pub closed : ℕ → List Action → ℕ
closed c [] = 0
closed c (starts conn port ∷ xs) = closed c xs
closed c (splices conn ∷ xs) = closed c xs
closed c (closes conn ∷ xs) = (if conn == c then 1 else 0) + closed c xs
closed c (reports f ∷ xs) = closed c xs

-- How often a connection was accepted.
unfoldable pub accepted : ℕ → List Step → ℕ
accepted c [] = 0
accepted c (accepts conn port ∷ xs) = (if conn == c then 1 else 0) + accepted c xs
accepted c (finishes slot opened ∷ xs) = accepted c xs
accepted c (becomes_ready ∷ xs) = accepted c xs
accepted c (disconnects ∷ xs) = accepted c xs
accepted c (serve_ends ∷ xs) = accepted c xs
accepted c (cancels ∷ xs) = accepted c xs

spliced-append : (c : ℕ) (xs ys : List Action) → spliced c (xs ++ ys) ≡ spliced c xs + spliced c ys
unfolding spliced
spliced-append c [] ys = omega arith
spliced-append c (starts conn port ∷ xs) ys = spliced-append c xs ys
spliced-append c (splices conn ∷ xs) ys = omega (arith, spliced-append c xs ys)
spliced-append c (closes conn ∷ xs) ys = spliced-append c xs ys
spliced-append c (reports f ∷ xs) ys = spliced-append c xs ys

closed-append : (c : ℕ) (xs ys : List Action) → closed c (xs ++ ys) ≡ closed c xs + closed c ys
unfolding closed
closed-append c [] ys = omega arith
closed-append c (starts conn port ∷ xs) ys = closed-append c xs ys
closed-append c (splices conn ∷ xs) ys = closed-append c xs ys
closed-append c (closes conn ∷ xs) ys = omega (arith, closed-append c xs ys)
closed-append c (reports f ∷ xs) ys = closed-append c xs ys

-- How often a slot that is freed was held by a connection.
unfoldable freed : ℕ → Option ℕ → ℕ
freed c none = 0
freed c (some conn) = if conn == c then 1 else 0

free_slot-held :
    (c n : ℕ) (active : List ℕ)
    → freed c (free_slot n active).0 + held c (free_slot n active).1 ≡ held c active
unfolding free_slot freed held
free_slot-held c n [] = omega arith
free_slot-held c zero (conn ∷ active) = omega arith
free_slot-held c (suc n) (conn ∷ active) = ground (arith, free_slot-held c n active)

module _ (has_report : Bool) where
  report_idle :
      (c : ℕ) (f : Failure) (l : Listener)
      → (spliced c (report has_report f l) ≡ 0) × (closed c (report has_report f l) ≡ 0)
  unfolding spliced closed report
  report_idle c f l = (ground arith, ground arith)

  -- The fates of a connection: what a step did with it, and whether it is in a slot after it.
  abbrev fates : ℕ → List Action × Listener → ℕ
  fates c r = spliced c r.0 + closed c r.0 + held c r.1.active

  accept-fates :
      (c conn port : ℕ) (l : Listener)
      → fates c (accept has_report conn port l) ≡ (if conn == c then 1 else 0) + held c l.active
  unfolding accept spliced closed held take_slot
  accept-fates c conn port l =
      ground (arith, report_idle c not_ready l, report_idle c limit_reached l)

  finish_forward-fates :
      (c slot : ℕ) (opened : Bool) (l : Listener)
      → fates c (finish_forward has_report slot opened l) ≡ held c l.active
  unfolding finish_forward forward spliced closed freed
  finish_forward-fates c slot opened l =
      let taken = free_slot-held c slot l.active in
      elim (Option-cases (free_slot slot l.active).0) [
        | inl idle ↦ ground arith
        | inr (conn, q) ↦ elim (Bool-cases opened) [
          | inl done ↦ ground arith
          | inr broken ↦ ground (arith, report_idle c open_failed l)
        ]
      ]

  step-fates :
      (c : ℕ) (x : Step) (xs : List Step) (l : Listener)
      → fates c (step has_report x l) + accepted c xs ≡ held c l.active + accepted c (x ∷ xs)
  unfolding step accepted spliced closed
  step-fates c (accepts conn port) xs l = omega (arith, accept-fates c conn port l)
  step-fates c (finishes slot opened) xs l = omega (arith, finish_forward-fates c slot opened l)
  step-fates c becomes_ready xs l = omega arith
  step-fates c disconnects xs l = omega arith
  step-fates c serve_ends xs l = omega arith
  step-fates c cancels xs l = omega arith

  run-fates_from :
      (c : ℕ) (xs : List Step) (l : Listener)
      → fates c (run has_report xs l) ≡ held c l.active + accepted c xs
  unfolding run accepted spliced closed
  run-fates_from c [] l = omega arith
  run-fates_from c (x ∷ xs) l =
      let now = (step has_report x l).0 in
      let l' = (step has_report x l).1 in
      let later = (run has_report xs l').0 in
      omega (
        arith,
        step-fates c x xs l,
        run-fates_from c xs l',
        spliced-append c now later,
        closed-append c now later,
      )

  -- In any interleaving, each connection was accepted as often as it was spliced, was closed
  -- without a splice, or is in a slot.
  pub run-accounts :
      (c : ℕ) (xs : List Step)
      → spliced c (run has_report xs new_listener).0
          + closed c (run has_report xs new_listener).0
          + held c (run has_report xs new_listener).1.active
        ≡ accepted c xs
  unfolding held
  run-accounts c xs = omega (arith, run-fates_from c xs new_listener)

  step-slots :
      (x : Step) (l : Listener)
      → length l.active ≤ max_tunnels
      → length (step has_report x l).1.active ≤ max_tunnels
  unfolding step accept finish_forward
  step-slots (accepts conn port) l h = ground (arith, take_slot-length conn l.active h)
  step-slots (finishes slot opened) l h = ground (arith, free_slot-length slot l.active)
  step-slots becomes_ready l h = h
  step-slots disconnects l h = h
  step-slots serve_ends l h = h
  step-slots cancels l h = h

  run-slots_from :
      (xs : List Step) (l : Listener)
      → length l.active ≤ max_tunnels
      → length (run has_report xs l).1.active ≤ max_tunnels
  unfolding run
  run-slots_from [] l h = h
  run-slots_from (x ∷ xs) l h = run-slots_from xs (step has_report x l).1 (step-slots x l h)

  -- In any interleaving, at most 256 connections are in a slot.
  pub run-slots : (xs : List Step) → length (run has_report xs new_listener).1.active ≤ max_tunnels
  run-slots xs = run-slots_from xs new_listener (omega arith)
