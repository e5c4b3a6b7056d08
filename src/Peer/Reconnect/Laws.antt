-- ===== src/Peer/Reconnect/Laws.antt =====
-- internal/peer/reconnect.go: the delays between attempts, and why Serve returns.
use ggrok.Prelude.{
  All, ℕ, zero, suc, ◌+◌, ◌-◌, ◌*◌, ◌/◌, ◌^◌, ◌≤◌, ◌<◌, ◌≡◌, refl, ◌⊎◌, inl, inr, Bool, true, false,
  List, [], ◌∷◌, none, some, Option-cases, Bool-cases, leb, ltb, if◌then◌else◌, arith,
}
use ggrok.Peer.Reconnect.{
  reconnect_min_delay, reconnect_max_delay, reconnect_max_shift, SessionError, retryable, backoff,
  retry_delay, Attempt, Notice, on_ready, on_reconnect, on_waiting, on_disconnect, Stop, failed,
  Next, stops, again, settle, notify_connected, reconnect_stable_for, round, serve_from,
}

pow_large : (k : ℕ) → 256 ≤ 2 ^ (8 + k)
pow_large zero = omega arith
pow_large (suc k) =
    let h = pow_large k in let next : 8 + suc k ≡ suc (8 + k) = omega arith in rw next (omega arith)

-- The capped shift is the doubling that never stops, cut at the maximum.
backoff-doubles :
    (attempt : ℕ)
    → backoff attempt ≡ (
        if ltb (reconnect_min_delay * 2 ^ attempt) reconnect_max_delay
        then reconnect_min_delay * 2 ^ attempt
        else reconnect_max_delay)
unfolding backoff
backoff-doubles attempt = elim (Bool-cases (ltb attempt reconnect_max_shift)) [
  | inl short ↦ ground arith
  | inr long ↦
      let past : 8 ≤ attempt = ground arith in
      let split : 8 + (attempt - 8) ≡ attempt = omega arith in
      let large : 256 ≤ 2 ^ attempt = rw split at (pow_large (attempt - 8)) in ground arith
]

pow_pos : (k : ℕ) → 1 ≤ 2 ^ k
pow_pos zero = omega arith
pow_pos (suc k) = let h = pow_pos k in omega arith

backoff-bounds : (a : ℕ) → (reconnect_min_delay ≤ backoff a) × (backoff a ≤ reconnect_max_delay)
unfolding backoff
backoff-bounds a = let p = pow_pos a in ground arith

-- If the random number is below its bound, an attempt waits more than three quarters of its
-- backoff and at most all of it, and the backoff is between 250 ms and 10 s.
pub retry_delay-bounds :
    (draw : ℕ → ℕ) (attempt : ℕ)
    → ((n : ℕ) → 0 < n → draw n < n)
    → (3 * backoff attempt < 4 * retry_delay draw attempt)
      × (retry_delay draw attempt ≤ backoff attempt)
      × (reconnect_min_delay ≤ backoff attempt)
      × (backoff attempt ≤ reconnect_max_delay)
unfolding retry_delay
retry_delay-bounds draw attempt d =
    let (low, high) = backoff-bounds attempt in
    let some_spread : 0 < backoff attempt / 4 = omega arith in
    let drawn = d (backoff attempt / 4) some_spread in (omega arith, omega arith, low, high)

-- How often a session was established.
unfoldable pub established : List Notice → ℕ
established [] = 0
established (on_ready ∷ ns) = suc (established ns)
established (on_reconnect ∷ ns) = suc (established ns)
established (on_waiting e d ∷ ns) = established ns
established (on_disconnect e d ∷ ns) = established ns

-- The error is not worth a retry, or no session ever came about and none was to be waited for.
abbrev pub GaveUp : Bool → Bool → List Notice → SessionError → Type 0
GaveUp wait connected ns e =
    (retryable e ≡ false) ⊎ ((wait ≡ false) × (connected ≡ false) × (established ns ≡ 0))

settle-failed :
    (wait connected : Bool) (attempt : ℕ) (e0 : SessionError) (a : Attempt) {ns : List Notice}
    {e : SessionError}
    → settle wait connected attempt e0 a ≡ (ns, stops (failed e))
    → (established ns ≡ 0) × ((retryable e ≡ false) ⊎ ((wait ≡ false) × (connected ≡ false)))
unfolding settle established
settle-failed wait connected attempt e0 a {ns} {e} h = ground arith

settle-again :
    (wait connected : Bool) (attempt : ℕ) (e0 : SessionError) (a : Attempt) {ns : List Notice}
    {c : Bool} {n : ℕ}
    → settle wait connected attempt e0 a ≡ (ns, again c n)
    → (c ≡ connected) × (established ns ≡ 0) × ((wait ≡ true) ⊎ (connected ≡ true))
unfolding settle established
settle-again wait connected attempt e0 a {ns} {c} {n} h = ground arith

Next-cases : (x : Next) → ((s : Stop) × (x ≡ stops s)) ⊎ ((c : Bool) × (n : ℕ) × (x ≡ again c n))
Next-cases (stops s) = inl (s, refl)
Next-cases (again c n) = inr (c, n, refl)

-- The attempt count behind a session that lasted.
abbrev after_session : ℕ → Attempt → ℕ
after_session attempt a = if leb reconnect_stable_for a.lasted then 0 else attempt

round-failed :
    (wait connected : Bool) (attempt : ℕ) (a : Attempt) {ns : List Notice} {e : SessionError}
    → round wait connected attempt a ≡ (ns, stops (failed e))
    → GaveUp wait connected ns e
unfolding round
round-failed wait connected attempt a {ns} {e} h = elim (Option-cases a.connect) [
  | inr (e0, broken) ↦
      let (none_yet, why) =
        settle-failed wait connected attempt e0 a {ns = ns} {e = e} (ground arith) in
      ground arith
  | inl fine ↦ elim (Option-cases (notify_connected connected a)) [
    | inr (e0, unready) ↦ absurd (ground arith)
    | inl notified ↦
        let notices : List Notice = (settle wait true (after_session attempt a) a.ended a).0 in
        let (none_yet, why) =
          settle-failed wait true (after_session attempt a) a.ended a {ns = notices} {e = e}
            (ground arith) in
        ground arith
  ]
]

round-again :
    (wait connected : Bool) (attempt : ℕ) (a : Attempt) {ns : List Notice} {c : Bool} {n : ℕ}
    → round wait connected attempt a ≡ (ns, again c n)
    → (wait ≡ true) ⊎ (c ≡ true)
unfolding round
round-again wait connected attempt a {ns} {c} {n} h = elim (Option-cases a.connect) [
  | inr (e0, broken) ↦
      let (same, none_yet, why) =
        settle-again wait connected attempt e0 a {ns = ns} {c = c} {n = n} (ground arith) in
      ground arith
  | inl fine ↦ elim (Option-cases (notify_connected connected a)) [
    | inr (e0, unready) ↦ absurd (ground arith)
    | inl notified ↦
        let notices : List Notice = (settle wait true (after_session attempt a) a.ended a).0 in
        let (same, none_yet, why) =
          settle-again wait true (after_session attempt a) a.ended a {ns = notices} {c = c} {n = n}
            (ground arith) in
        ground arith
  ]
]

-- When Serve returns the error of a connection or a session, either a retry cannot mend that
-- error, or Wait is unset, it began unconnected and no session was ever established.
pub serve_from-failed :
    (wait connected : Bool) (attempt : ℕ) (attempts : List Attempt) {ns : List Notice}
    {e : SessionError}
    → serve_from wait connected attempt attempts ≡ (ns, some (failed e))
    → GaveUp wait connected ns e
unfolding serve_from round
serve_from-failed wait connected attempt [] h = absurd (ground arith)
serve_from-failed wait connected attempt (a ∷ rest) {ns} {e} h =
    elim (Next-cases (round wait connected attempt a).1) [
      | inl (s, halt) ↦ round-failed wait connected attempt a (ground arith)
      | inr (c, n, more) ↦
          let first : List Notice = (round wait connected attempt a).0 in
          let later : List Notice = (serve_from wait c n rest).0 in
          let goes =
            round-again wait connected attempt a {ns = first} {c = c} {n = n} (ground arith) in
          let gave = serve_from-failed wait c n rest {ns = later} {e = e} (ground arith) in
          ground arith
    ]

-- An attempt behind which Serve goes on: ctx lives, and every error is worth a retry.
pub record IsPassing (a : Attempt) : Type 0 where
  pub alive : a.canceled ≡ false
  pub waits : a.wait_canceled ≡ false
  pub refused : elim a.connect [ none ↦ true | some e ↦ retryable e ] ≡ true
  pub dropped : retryable a.ended ≡ true

round-passing :
    (wait : Bool) (attempt : ℕ) (a : Attempt)
    → IsPassing a
    → (n : ℕ) × ((round wait true attempt a).1 ≡ again true n)
unfolding round settle
round-passing wait attempt a p = elim (Option-cases a.connect) [
  | inr (e0, broken) ↦ (attempt + 1, ground (arith, p.alive, p.waits, p.refused))
  | inl fine ↦ (after_session attempt a + 1, ground (arith, p.alive, p.waits, p.dropped))
]

-- Once connected, Serve still runs after any attempts whose errors are all worth a retry and
-- during which ctx does not end.
pub serve_from-passing :
    (wait : Bool) (attempt : ℕ) (attempts : List Attempt)
    → All IsPassing attempts
    → (serve_from wait true attempt attempts).1 ≡ none
unfolding serve_from
serve_from-passing wait attempt [] p = refl
serve_from-passing wait attempt (a ∷ rest) p =
    let (n, more) = round-passing wait attempt a p.0 in
    let later = serve_from-passing wait n rest p.1 in ground arith
