-- ===== src/Relay/Session/History.antt =====
-- internal/relay/session.go: any sequence of calls, in the order in which they take the lock.
use ggrok.Prelude.{
  ℕ, suc, ◌+◌, ◌-◌, ◌^◌, ◌<◌, ◌≡◌, List, [], ◌∷◌, Option, none, some, Option-cases, arith, length,
  inl, inr, Bool-cases,
}
use ggrok.Prelude.Maps.{insert}
use ggrok.Relay.Session.{
  Session, Peer, Stream, new_session, add_subscriber, remove_subscriber, add_pending, claim_pending,
  remove_pending, add_stream, remove_stream, shutdown,
}
use ggrok.Relay.Session.Invariant.{
  IsValid, IsValid-suc, new_session-IsValid, add_subscriber-IsValid, remove_subscriber-IsValid,
  add_pending-IsValid, claim_pending-IsValid, begin_shutdown-IsValid,
}

pub data Call : Type 0 where
  joins : Peer → ℕ → Call
  leaves : ℕ → Call
  asks : Peer → ℕ → ℕ → Call
  -- A publisher's connection takes a request, or its timer fires.
  claims expires : ℕ → Call
  streams : ℕ → Stream → Call
  unstreams : ℕ → Call
  shuts : Call

-- A call that is refused leaves the session as it was.
abbrev pub after : Session → Option (ℕ × Session) → Session
after s none = s
after s (some (id, s')) = s'

unfoldable pub step : Session → Call → Session
step s (joins peer now) = after s (add_subscriber peer now s)
step s (leaves id) = remove_subscriber id s
step s (asks peer port now) = after s (add_pending peer port now s)
step s (claims id) = (claim_pending id s).1
step s (expires id) = (remove_pending id s).1
step s (streams id stream) = (add_stream id stream s).1
step s (unstreams id) = remove_stream id s
step s shuts = (shutdown s).2

unfoldable pub run : Session → List Call → Session
run s [] = s
run s (c ∷ cs) = run (step s c) cs

-- The invariant says nothing of the streams.
set_streams-IsValid :
    (n : ℕ) (s : Session) (m : List (ℕ × Stream))
    → IsValid n s
    → IsValid n (record s { streams = m })
set_streams-IsValid n s m v = record {
  subs_distinct = v.subs_distinct;
  subs_below = v.subs_below;
  sub_counter = v.sub_counter;
  reqs_distinct = v.reqs_distinct;
  reqs_below = v.reqs_below;
  req_counter = v.req_counter;
  subs_bound = v.subs_bound;
  reqs_bound = v.reqs_bound;
  closed_empty = v.closed_empty;
  counts = v.counts;
}

add_stream-IsValid :
    (n id : ℕ) (stream : Stream) (s : Session) → IsValid n s → IsValid n (add_stream id stream s).1
unfolding add_stream
add_stream-IsValid n id stream s v = elim (Bool-cases s.closed) [
  | inl over ↦ let same : (add_stream id stream s).1 ≡ s = ground arith in rw same v
  | inr alive ↦
      let added : (add_stream id stream s).1 ≡ record s { streams = insert id stream s.streams } =
        ground arith in
      rw added (set_streams-IsValid n s _ v)
]

pub remove_pending-claim_pending :
    (id : ℕ) (s : Session) → (remove_pending id s).1 ≡ (claim_pending id s).1
unfolding remove_pending
remove_pending-claim_pending id s = ground arith

pub step-IsValid :
    (n : ℕ) (s : Session) (c : Call) → n < 2 ^ 64 - 1 → IsValid n s → IsValid (suc n) (step s c)
unfolding step
step-IsValid n s (joins peer now) small v = elim (Option-cases (add_subscriber peer now s)) [
  | inl refused ↦ rw refused (IsValid-suc v)
  | inr ((id, s'), e) ↦ rw e (add_subscriber-IsValid small v peer now e)
]
step-IsValid n s (leaves id) small v = IsValid-suc (remove_subscriber-IsValid small v id)
step-IsValid n s (asks peer port now) small v = elim (Option-cases (add_pending peer port now s)) [
  | inl refused ↦ rw refused (IsValid-suc v)
  | inr ((id, s'), e) ↦ rw e (add_pending-IsValid small v peer port now e)
]
step-IsValid n s (claims id) small v = IsValid-suc (claim_pending-IsValid small v id)
step-IsValid n s (expires id) small v =
    rw (remove_pending-claim_pending id s) (IsValid-suc (claim_pending-IsValid small v id))
step-IsValid n s (streams id stream) small v = IsValid-suc (add_stream-IsValid n id stream s v)
step-IsValid n s (unstreams id) small v =
    unfold remove_stream in IsValid-suc (set_streams-IsValid n s _ v)
step-IsValid n s shuts small v = unfold shutdown in IsValid-suc (begin_shutdown-IsValid small v)

run-IsValid :
    (cs : List Call) (n : ℕ) (s : Session)
    → n + length cs < 2 ^ 64
    → IsValid n s
    → IsValid (n + length cs) (run s cs)
unfolding run
run-IsValid [] n s small v = let same : n + 0 ≡ n = omega arith in rw same v
run-IsValid (c ∷ cs) n s small v =
    let same : n + suc (length cs) ≡ suc n + length cs = omega arith in
    rw same (run-IsValid cs (suc n) (step s c) (omega arith) (step-IsValid n s c (omega arith) v))

-- After any history of fewer than 2 ^ 64 calls a session is valid: its keys are bound once and lie
-- below their counters, its tables are within their limit, no request waits once it is closed, and
-- it counts each certificate's subscribers.
pub run-new_session-IsValid :
    (cs : List Call) (mode ports publisher cert now : ℕ)
    → length cs < 2 ^ 64
    → IsValid (length cs) (run (new_session mode ports publisher cert now) cs)
run-new_session-IsValid cs mode ports publisher cert now small =
    let same : length cs ≡ 0 + length cs = omega arith in
    rw same (run-IsValid cs 0 _ (omega arith) (new_session-IsValid 0 mode ports publisher cert now))
