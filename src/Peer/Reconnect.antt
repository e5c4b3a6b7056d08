-- ===== src/Peer/Reconnect.antt =====
-- internal/peer/reconnect.go: Session.Serve, which redials relay whenever a session ends. Durations
-- are nanoseconds. What one round of the loop meets outside is an Attempt: the results of connect,
-- of OnReady and of runSession, how long the session lasted, whether ctx has ended, and the random
-- number of the jitter. A nil callback is one that does nothing.
pub mod Laws
use ggrok.Prelude.{
  ℕ, suc, ◌+◌, ◌-◌, ◌*◌, ◌/◌, ◌^◌, ◌≡◌, Bool, true, false, not, List, [], ◌∷◌, ◌++◌, Option, none,
  some, leb, ltb, if◌then◌else◌,
}

abbrev pub reconnect_min_delay : ℕ
reconnect_min_delay = 250000000

abbrev pub reconnect_max_delay : ℕ
reconnect_max_delay = 10000000000

abbrev pub reconnect_max_shift : ℕ
reconnect_max_shift = 8

abbrev pub reconnect_jitter_div : ℕ
reconnect_jitter_div = 4

abbrev pub reconnect_stable_for : ℕ
reconnect_stable_for = 60000000000

-- What errors.Is and errors.As find in an error.
pub data SessionError : Type 0 where
  mode_mismatch ports_mismatch denied certificate_error protocol_mismatch tls_alert : SessionError
  publisher_exists no_such_session transport : SessionError

unfoldable pub retryable : SessionError → Bool
retryable mode_mismatch = false
retryable ports_mismatch = false
retryable denied = false
retryable certificate_error = false
retryable protocol_mismatch = false
retryable tls_alert = false
retryable publisher_exists = true
retryable no_such_session = true
retryable transport = true

-- The delay of an attempt before its jitter.
unfoldable pub backoff : ℕ → ℕ
backoff attempt =
    if ltb attempt reconnect_max_shift
    then (if ltb (reconnect_min_delay * 2 ^ attempt) reconnect_max_delay
        then reconnect_min_delay * 2 ^ attempt
        else reconnect_max_delay)
    else reconnect_max_delay

-- `draw n` is `rand.Int64N(n)`.
unfoldable pub retry_delay : (ℕ → ℕ) → ℕ → ℕ
retry_delay draw attempt = backoff attempt - draw (backoff attempt / reconnect_jitter_div)

pub record Attempt : Type 0 where
  pub connect : Option SessionError
  pub ready : Option SessionError
  pub ended : SessionError
  pub lasted : ℕ
  pub canceled : Bool
  pub wait_canceled : Bool
  pub draw : ℕ → ℕ

-- The callbacks.
pub data Notice : Type 0 where
  on_ready on_reconnect : Notice
  on_waiting on_disconnect : SessionError → ℕ → Notice

-- What Serve returns: ctx's error, OnReady's, or that of the session.
pub data Stop : Type 0 where
  context_ended : Stop
  not_ready failed : SessionError → Stop

pub data Next : Type 0 where
  stops : Stop → Next
  again : Bool → ℕ → Next

-- The part of a round behind connect and runSession.
unfoldable pub settle : Bool → Bool → ℕ → SessionError → Attempt → List Notice × Next
settle wait connected attempt e a =
    if a.canceled
    then ([], stops context_ended)
    else if not (if connected then true else wait)
    then ([], stops (failed e))
    else if not (retryable e)
    then ([], stops (failed e))
    else let delay = retry_delay a.draw attempt in
      let notice = if connected then on_disconnect e delay else on_waiting e delay in
      (notice ∷ [], if a.wait_canceled then stops context_ended else again connected (attempt + 1))

abbrev pub notify_connected : Bool → Attempt → Option SessionError
notify_connected connected a = if connected then none else a.ready

-- One round of the loop.
unfoldable pub round : Bool → Bool → ℕ → Attempt → List Notice × Next
round wait connected attempt a = elim a.connect [
  | some e ↦ settle wait connected attempt e a
  | none ↦ elim (notify_connected connected a) [
    | some e ↦ (on_ready ∷ [], stops (not_ready e))
    | none ↦
        let kept = if leb reconnect_stable_for a.lasted then 0 else attempt in
        let (notices, next) = settle wait true kept a.ended a in
        ((if connected then on_reconnect else on_ready) ∷ notices, next)
  ]
]

-- The loop over the attempts that are made; `none` while it still runs.
unfoldable pub serve_from : Bool → Bool → ℕ → List Attempt → List Notice × Option Stop
serve_from wait connected attempt [] = ([], none)
serve_from wait connected attempt (a ∷ rest) =
    let (notices, next) = round wait connected attempt a in
    elim next [
      | stops s ↦ (notices, some s)
      | again connected' attempt' ↦
          let (later, result) = serve_from wait connected' attempt' rest in
          (notices ++ later, result)
    ]

abbrev pub serve : Bool → List Attempt → List Notice × Option Stop
serve wait attempts = serve_from wait false 0 attempts
