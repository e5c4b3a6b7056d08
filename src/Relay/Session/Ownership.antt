-- ===== src/Relay/Session/Ownership.antt =====
-- internal/relay/session.go: what becomes of the connections that a session accepts.
use ggrok.Prelude.{
  ℕ, suc, ◌+◌, ◌^◌, ◌<◌, ◌≡◌, refl, List, [], ◌∷◌, ◌++◌, map, Option, none, some, Option-cases,
  arith, inl, inr, true, Bool-cases, if◌then◌else◌, ◌==◌, length,
}
use ggrok.Prelude.Maps.{lookup, erase, insert, Distinct, erase_missing, lookup-above}
use ggrok.Relay.Session.{
  Session, Peer, Pending, Stream, add_subscriber, remove_subscriber, add_pending, claim_pending,
  remove_pending, add_stream, remove_stream, begin_shutdown, shutdown, new_session,
}
use ggrok.Relay.Session.Invariant.{IsValid, new_session-IsValid}
use ggrok.Relay.Session.History.{
  Call, joins, leaves, asks, claims, expires, streams, unstreams, shuts, after, step, run,
  step-IsValid, remove_pending-claim_pending,
}
use ggrok.Relay.Session.Shutdown.{shutdown-reaches}

unfoldable pub count : ℕ → List ℕ → ℕ
count x [] = 0
count x (y ∷ ys) = (if y == x then 1 else 0) + count x ys

count-append : (x : ℕ) (ys zs : List ℕ) → count x (ys ++ zs) ≡ count x ys + count x zs
unfolding count
count-append x [] zs = omega arith
count-append x (y ∷ ys) zs = omega (arith, count-append x ys zs)

abbrev pub waiting : Session → List ℕ
waiting s = map (λ (e : ℕ × Pending). e.1.conn) s.pending

abbrev conn_of : Option (ℕ × ℕ) → List ℕ
conn_of none = []
conn_of (some (conn, port)) = conn ∷ []

abbrev accepted_of : ℕ → Option (ℕ × Session) → List ℕ
accepted_of conn none = []
accepted_of conn (some x) = conn ∷ []

-- The connections that one call hands over: accepted as a request, paired, closed.
unfoldable pub accepted : Session → Call → List ℕ
accepted s (asks peer port now) = accepted_of peer.conn (add_pending peer port now s)
accepted s _ = []

unfoldable pub paired : Session → Call → List ℕ
paired s (claims id) = conn_of (claim_pending id s).0
paired s _ = []

unfoldable pub closed_by : Session → Call → List ℕ
closed_by s (expires id) = (remove_pending id s).0
closed_by s shuts = (shutdown s).0.closes
closed_by s _ = []

-- The same over a history.
unfoldable pub over : (Session → Call → List ℕ) → Session → List Call → List ℕ
over f s [] = []
over f s (c ∷ cs) = f s c ++ over f (step s c) cs

count-erase :
    (x id : ℕ) (m : List (ℕ × Pending)) {req : Pending}
    → Distinct m
    → lookup id m ≡ some req
    → count x (map (λ (e : ℕ × Pending). e.1.conn) m)
      ≡ (if req.conn == x then 1 else 0)
        + count x (map (λ (e : ℕ × Pending). e.1.conn) (erase id m))
unfolding count lookup erase
count-erase x id [] d e = absurd (ground arith)
count-erase x id ((j, r) ∷ m) {req} d e = elim (Bool-cases (j == id)) [
  | inl hit ↦ ground (arith, erase_missing id m)
  | inr miss ↦ ground (arith, count-erase x id m {req = req} d.1)
]

claim-balance :
    (x id : ℕ) (s : Session)
    → Distinct s.pending
    → count x (waiting s)
      ≡ count x (conn_of (claim_pending id s).0) + count x (waiting (claim_pending id s).1)
claim-balance x id s d = elim (Option-cases (lookup id s.pending)) [
  | inl gone ↦
      let same : claim_pending id s ≡ (none, s) = unfold claim_pending in ground arith in
      rw same (unfold count in omega arith)
  | inr (req, e) ↦
      let same : claim_pending id s
          ≡ (some (req.conn, req.port), record s { pending = erase id s.pending }) =
        unfold claim_pending in ground arith in
      rw same (unfold count in omega (arith, count-erase x id s.pending d e))
]

remove_pending-conn :
    (id : ℕ) (s : Session) → (remove_pending id s).0 ≡ conn_of (claim_pending id s).0
unfolding remove_pending
remove_pending-conn id s = ground arith

abbrev Balance : ℕ → Session → Call → Type 0
Balance x s c =
    count x (waiting s) + count x (accepted s c)
    ≡ count x (paired s c) + count x (closed_by s c) + count x (waiting (step s c))

joins-pending :
    (s : Session) (peer : Peer) (now : ℕ)
    → (after s (add_subscriber peer now s)).pending ≡ s.pending
unfolding add_subscriber
joins-pending s peer now = ground arith

leaves-pending : (s : Session) (id : ℕ) → (remove_subscriber id s).pending ≡ s.pending
unfolding remove_subscriber
leaves-pending s id = ground arith

add_stream-pending :
    (s : Session) (id : ℕ) (stream : Stream) → (add_stream id stream s).1.pending ≡ s.pending
unfolding add_stream
add_stream-pending s id stream = ground arith

asks-waiting :
    (n : ℕ) (s : Session) (peer : Peer) (port now : ℕ) {id : ℕ} {s' : Session}
    → IsValid n s
    → add_pending peer port now s ≡ some (id, s')
    → waiting s' ≡ peer.conn ∷ waiting s
unfolding add_pending insert
asks-waiting n s peer port now {id} {s'} v e =
    let fresh = lookup-above s.next_req_id s.next_req_id s.pending (omega arith) v.reqs_below in
    let req : Pending = record { conn = peer.conn; port = port; since = now } in
    let put : s'.pending ≡ (s.next_req_id, req) ∷ erase s.next_req_id s.pending = ground arith in
    rw (put, erase_missing s.next_req_id s.pending fresh) refl

ends-balance :
    (x : ℕ) (s : Session)
    → (s.closed ≡ true → s.pending ≡ [])
    → count x (waiting s) + count x []
      ≡ count x [] + count x (shutdown s).0.closes + count x (waiting (shutdown s).2)
ends-balance x s empty = elim (Bool-cases s.closed) [
  | inl over ↦
      let same : shutdown s ≡ (record { closes = []; tells = [] }, 0, s) =
        unfold shutdown begin_shutdown in ground arith in
      rw same (unfold count in omega arith)
  | inr alive ↦ let e = shutdown-reaches s alive in rw (e.0, e.3) (unfold count in omega arith)
]

step-Balance : (x n : ℕ) (s : Session) (c : Call) → IsValid n s → Balance x s c
unfolding step accepted paired closed_by
step-Balance x n s (joins peer now) v = unfold count in rw (joins-pending s peer now) (omega arith)
step-Balance x n s (leaves id) v = unfold count in rw (leaves-pending s id) (omega arith)
step-Balance x n s (asks peer port now) v = elim (Option-cases (add_pending peer port now s)) [
  | inl refused ↦ unfold count in rw refused (omega arith)
  | inr ((id, s'), e) ↦ unfold count in rw (e, asks-waiting n s peer port now v e) (omega arith)
]
step-Balance x n s (claims id) v =
    unfold count in omega (arith, claim-balance x id s v.reqs_distinct)
step-Balance x n s (expires id) v =
    rw (remove_pending-claim_pending id s, remove_pending-conn id s)
      (unfold count in omega (arith, claim-balance x id s v.reqs_distinct))
step-Balance x n s (streams id stream) v =
    unfold count in rw (add_stream-pending s id stream) (omega arith)
step-Balance x n s (unstreams id) v = unfold count remove_stream in omega arith
step-Balance x n s shuts v = ends-balance x s v.closed_empty

run-balance :
    (x : ℕ) (cs : List Call) (n : ℕ) (s : Session)
    → n + length cs < 2 ^ 64
    → IsValid n s
    → count x (waiting s) + count x (over accepted s cs)
      ≡ count x (over paired s cs) + count x (over closed_by s cs) + count x (waiting (run s cs))
unfolding over run
run-balance x [] n s small v = unfold count in omega arith
run-balance x (c ∷ cs) n s small v = omega (
  arith,
  step-Balance x n s c v,
  run-balance x cs (suc n) (step s c) (omega arith) (step-IsValid n s c (omega arith) v),
  count-append x (accepted s c) (over accepted (step s c) cs),
  count-append x (paired s c) (over paired (step s c) cs),
  count-append x (closed_by s c) (over closed_by (step s c) cs),
)

-- Over any history of a new session, of fewer than 2 ^ 64 calls, a connection was accepted as a
-- request as often as it was handed to a publisher's connection, was closed by the session, or
-- still waits.
pub run-fates :
    (x : ℕ) (cs : List Call) (mode ports publisher cert now : ℕ)
    → length cs < 2 ^ 64
    → let s = new_session mode ports publisher cert now in
      count x (over accepted s cs)
      ≡ count x (over paired s cs) + count x (over closed_by s cs) + count x (waiting (run s cs))
run-fates x cs mode ports publisher cert now small = omega (
  arith,
  run-balance x cs 0 (new_session mode ports publisher cert now) (omega arith)
      (new_session-IsValid 0 mode ports publisher cert now),
  nobody_waits x mode ports publisher cert now,
)
  where
    nobody_waits :
        (x mode ports publisher cert now : ℕ)
        → count x (waiting (new_session mode ports publisher cert now)) ≡ 0
    nobody_waits x mode ports publisher cert now = unfold count new_session in refl
