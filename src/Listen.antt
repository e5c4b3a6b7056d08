-- ===== src/Listen.antt =====
-- internal/listen/listen.go: the subscriber's side. A listener is a number, and a local connection is
-- one. A goroutine's step stands where it takes the lock, channel or atomic that the others see: an
-- accepted connection, the end of a forward, and what the session reports.
pub mod Accounts
pub mod Binding
pub mod Quiet
use ggrok.Prelude.{
  ℕ, zero, suc, ◌+◌, Bool, true, false, not, ◌&&◌, List, [], ◌∷◌, ◌++◌, map, Option, none, some,
  Result, ok, err, if◌then◌else◌,
}
use ggrok.HostPort.{Net, HostPort, Range, len, at}
use ggrok.Proto.Control.{control_session_closed, read_session_closed}
use ggrok.Peer.Slots.{take_slot, free_slot}
use ggrok.Prelude.{◌==◌}

pub data Failure : Type 0 where
  not_ready limit_reached open_failed : Failure

pub data Action : Type 0 where
  -- A forward of a connection that arrived on the port at an index, and its splice.
  starts : ℕ → ℕ → Action
  splices : ℕ → Action
  closes : ℕ → Action
  reports : Failure → Action

-- What the accept loops and the session share.
pub record Listener : Type 0 where
  pub ready : Bool
  pub canceled : Bool
  pub active : List ℕ

abbrev pub new_listener : Listener
new_listener = record { ready = false; canceled = false; active = [] }

pub data Step : Type 0 where
  accepts : ℕ → ℕ → Step
  -- The goroutine in a slot ends, with whether OpenTunnel succeeded.
  finishes : ℕ → Bool → Step
  -- OnReady and OnReconnect, OnDisconnect, the end of Serve, and the caller's cancel.
  becomes_ready disconnects serve_ends cancels : Step

-- `has_report` is whether OnForwardError is set.
module _ (has_report : Bool) where
  unfoldable pub report : Failure → Listener → List Action
  report f l = if has_report && not l.canceled then reports f ∷ [] else []

  -- The body of acceptLoop on a connection.
  unfoldable pub accept : ℕ → ℕ → Listener → List Action × Listener
  accept conn port l =
      if not l.ready
      then (closes conn ∷ report not_ready l, l)
      else let (took, active) = take_slot conn l.active in
        if took
        then (starts conn port ∷ [], record l { active = active })
        else (closes conn ∷ report limit_reached l, l)

  -- `forward` behind OpenTunnel, and what the goroutine does with its error.
  unfoldable pub forward : ℕ → Bool → Listener → List Action
  forward conn true l = splices conn ∷ []
  forward conn false l = closes conn ∷ report open_failed l

  unfoldable pub finish_forward : ℕ → Bool → Listener → List Action × Listener
  finish_forward slot opened l =
      let (conn, active) = free_slot slot l.active in
      elim conn [ none ↦ ([], l) | some c ↦ (forward c opened l, record l { active = active }) ]

  unfoldable pub step : Step → Listener → List Action × Listener
  step (accepts conn port) l = accept conn port l
  step (finishes slot opened) l = finish_forward slot opened l
  step becomes_ready l = ([], record l { ready = true })
  step disconnects l = ([], record l { ready = false })
  step serve_ends l = ([], record l { ready = false; canceled = true })
  step cancels l = ([], record l { canceled = true })

  unfoldable pub run : List Step → Listener → List Action × Listener
  run [] l = ([], l)
  run (x ∷ xs) l = let (now, l') = step x l in let (later, l'') = run xs l' in (now ++ later, l'')

-- `sessionClosedErr`: the reason, `none` if it is unknown.
unfoldable pub session_closed_err : List ℕ → Option ℕ
session_closed_err payload = elim (read_session_closed payload) [
  | err e ↦ none
  | ok reason ↦ some reason
]

-- The Handle of runTCP: `some` is an error that wraps ErrSessionClosed.
unfoldable pub handle : ℕ → List ℕ → Option (Option ℕ)
handle typ payload =
    if typ == control_session_closed then some (session_closed_err payload) else none

-- `ShutdownErr` of what Serve has returned so far, of ctx's error, and of what Accept returned.
unfoldable pub shutdown_err {ℓ} : {E : Type ℓ} → Option E → Option E → E → E
shutdown_err (some e) ended e' = e
shutdown_err none (some e) e' = e
shutdown_err none none e' = e'

-- The loop of bindRange over the indices from `i`: the listeners, or those closed again.
module _ (n : Net) (binds : HostPort n → Option ℕ) where
  unfoldable pub bind_each : Range n → ℕ → ℕ → List ℕ → Result (List ℕ) (List ℕ)
  bind_each addr i zero bound = ok bound
  bind_each addr i (suc more) bound = elim (at n addr i) [
    | none ↦ err bound
    | some port ↦ elim (binds port) [
      | none ↦ err bound
      | some ln ↦ bind_each addr (i + 1) more (bound ++ ln ∷ [])
    ]
  ]

  unfoldable pub bind_range : Range n → Result (List ℕ) (List ℕ)
  bind_range addr = bind_each addr 0 (len n addr) []
