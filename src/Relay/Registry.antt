-- ===== src/Relay/Registry.antt =====
-- internal/relay/registry.go: the active sessions by their SessionID, and what Register, Subscribe,
-- Kill and the two attaches do with them. A `*session` is a reference into a heap, since the registry
-- and the handlers share it. A SessionID is the number that its 16 bytes spell. Whether a write to a
-- peer succeeds, and whether the publish claim verified (internal/proto/claim.go), are arguments.
pub mod Register
pub mod Kill
pub mod Data
pub mod Broker
use ggrok.Prelude.{
  ℕ, suc, ◌+◌, ◌/◌, ◌^◌, ◌≡◌, Bool, true, false, not, List, [], ◌∷◌, ◌++◌, map, Option, none, some,
  Result, ok, err, leb, ◌==◌, if◌then◌else◌,
}
use ggrok.Prelude.Maps.{lookup, erase, insert}
use ggrok.Proto.Hello.{
  mode_tcp, ack_ok, ack_no_such_session, ack_mode_mismatch, ack_publisher_exists,
  ack_ports_mismatch, ack_denied,
}
use ggrok.Relay.Session.{
  Session, Peer, Stream, Ended, new_session, add_subscriber, remove_subscriber, add_pending,
  claim_pending, remove_pending, add_stream, remove_stream, shutdown,
}

pub record Relay : Type 0 where
  pub heap : List (ℕ × Session)
  pub next_ref : ℕ
  -- `r.sessions` and `r.killed`.
  pub sessions : List (ℕ × ℕ)
  pub killed : List (ℕ × Unit {0})

pub data RelayError : Type 0 where
  no_certificate claim_rejected session_killed publisher_exists ack_failed : RelayError
  no_such_session mode_mismatch ports_mismatch ambiguous_tag : RelayError
  port_out_of_range request_failed not_publisher_cert unknown_request : RelayError

-- What relay does to connections: an ack, a frame that asks for a data connection, a close, the
-- frame that ends a session with the close behind it, and the splice of two connections.
pub data Event : Type 0 where
  acks : ℕ → ℕ → Event
  requests : ℕ → ℕ → ℕ → Event
  closes tells : ℕ → Event
  splices : ℕ → ℕ → Event

abbrev pub Reply {ℓ} : Type ℓ → Type ℓ
Reply A = Result RelayError A × List Event × Relay

pub record Request : Type 0 where
  pub session_id : ℕ
  pub mode : ℕ
  pub ports : ℕ

abbrev pub new_registry : Relay
new_registry = record { heap = []; next_ref = 0; sessions = []; killed = [] }

-- `sessionFor`, with the session that the reference points to.
unfoldable pub session_for : ℕ → Relay → Option (ℕ × Session)
session_for id r = elim (lookup id r.sessions) [
  | none ↦ none
  | some ref ↦ elim (lookup ref r.heap) [ none ↦ none | some s ↦ some (ref, s) ]
]

abbrev pub set_session : ℕ → Session → Relay → Relay
set_session ref s r = record r { heap = insert ref s r.heap }

abbrev pub ended_events : Ended → List Event
ended_events e = map closes e.closes ++ map tells e.tells

-- `sess.shutdown()` of a session on the heap: what it does, and how many it notified.
unfoldable pub end_session : ℕ → Relay → List Event × ℕ × Relay
end_session ref r = elim (lookup ref r.heap) [
  | none ↦ ([], 0, r)
  | some s ↦ let (e, n, s') = shutdown s in (ended_events e, n, set_session ref s' r)
]

-- The critical section of Register: the slot, or the status and the error of the refusal.
unfoldable pub take_slot : Request → ℕ → ℕ → ℕ → Relay → Result (ℕ × RelayError) ℕ × Relay
take_slot q conn cert now r = elim (lookup q.session_id r.killed) [
  | some _ ↦ (err (ack_denied, session_killed), r)
  | none ↦ elim (lookup q.session_id r.sessions) [
    | some _ ↦ (err (ack_publisher_exists, publisher_exists), r)
    | none ↦ (
      ok r.next_ref,
      record r {
        heap = insert r.next_ref (new_session q.mode q.ports conn cert now) r.heap;
        next_ref = suc r.next_ref;
        sessions = insert q.session_id r.next_ref r.sessions;
      },
    )
  ]
]

abbrev pub drop_slot : ℕ → Relay → Relay
drop_slot id r = record r { sessions = erase id r.sessions }

-- The part of Register behind the critical section.
unfoldable pub finish_register : Request → ℕ → Bool → Result (ℕ × RelayError) ℕ × Relay → Reply ℕ
finish_register q conn acked (err (status, e), r) = (err e, acks conn status ∷ [], r)
finish_register q conn true (ok ref, r) = (ok ref, acks conn ack_ok ∷ [], r)
finish_register q conn false (ok ref, r) =
    let (events, n, r') = end_session ref (drop_slot q.session_id r) in
    (err ack_failed, acks conn ack_ok ∷ events, r')

-- `Register`; the reference is what the returned unregister func holds.
unfoldable pub register : Peer → Request → Bool → Bool → ℕ → Relay → Reply ℕ
register control q claimed acked now r = elim control.cert [
  | none ↦ (err no_certificate, acks control.conn ack_denied ∷ [], r)
  | some cert ↦
      if claimed
      then finish_register q control.conn acked (take_slot q control.conn cert now r)
      else (err claim_rejected, acks control.conn ack_denied ∷ [], r)
]

-- The func that Register returns.
unfoldable pub unregister : ℕ → ℕ → Relay → List Event × ℕ × Relay
unregister id ref r = end_session ref (drop_slot id r)

-- `release` of a subscriber.
unfoldable pub release : ℕ → ℕ → Relay → Relay
release ref id r = elim (lookup ref r.heap) [
  | none ↦ r
  | some s ↦ set_session ref (remove_subscriber id s) r
]

unfoldable pub finish_subscribe : ℕ → ℕ → Bool → Option (ℕ × Session) → Relay → Reply (ℕ × ℕ)
finish_subscribe conn ref acked none r =
    (err no_such_session, acks conn ack_no_such_session ∷ [], r)
finish_subscribe conn ref true (some (id, s')) r =
    (ok (ref, id), acks conn ack_ok ∷ [], set_session ref s' r)
finish_subscribe conn ref false (some (id, s')) r =
    (err ack_failed, acks conn ack_ok ∷ [], release ref id (set_session ref s' r))

-- `Subscribe`; the pair is what the returned release func holds.
unfoldable pub subscribe : Peer → Request → Bool → ℕ → Relay → Reply (ℕ × ℕ)
subscribe control q acked now r = elim (session_for q.session_id r) [
  | none ↦ (err no_such_session, acks control.conn ack_no_such_session ∷ [], r)
  | some (ref, s) ↦
      if not (s.mode == q.mode)
      then (err mode_mismatch, acks control.conn ack_mode_mismatch ∷ [], r)
      else if not (s.ports == q.ports)
      then (err ports_mismatch, acks control.conn ack_ports_mismatch ∷ [], r)
      else finish_subscribe control.conn ref acked (add_subscriber control now s) r
]

-- `SessionID.LogTag`: the first six of the sixteen bytes.
abbrev pub log_tag : ℕ → ℕ
log_tag id = id / 2 ^ 80

-- The entries that the loop of Kill matches.
unfoldable pub matching : ℕ → List (ℕ × ℕ) → List (ℕ × ℕ)
matching tag [] = []
matching tag ((id, ref) ∷ m) =
    if log_tag id == tag then (id, ref) ∷ matching tag m else matching tag m

abbrev publisher_of : ℕ → Relay → List Event
publisher_of ref r = elim (lookup ref r.heap) [ none ↦ [] | some s ↦ closes s.publisher ∷ [] ]

unfoldable pub kill_found : List (ℕ × ℕ) → Relay → Reply ℕ
kill_found [] r = (err no_such_session, [], r)
kill_found (x ∷ y ∷ more) r = (err ambiguous_tag, [], r)
kill_found ((id, ref) ∷ []) r =
    let r1 = record r { killed = insert id tt r.killed; sessions = erase id r.sessions } in
    let (events, notified, r2) = end_session ref r1 in
    (ok notified, publisher_of ref r ++ events, r2)

unfoldable pub kill : ℕ → Relay → Reply ℕ
kill tag r = kill_found (matching tag r.sessions) r

-- AttachSubscriberData behind `addPending`.
unfoldable pub finish_attach : ℕ → ℕ → ℕ → ℕ → Bool → Bool → Option (ℕ × Session) → Relay → Reply ℕ
finish_attach conn publisher ref port acked asked none r =
    (err no_such_session, acks conn ack_no_such_session ∷ [], r)
finish_attach conn publisher ref port false asked (some (req, s')) r =
    let (dropped, s2) = remove_pending req s' in
    (err ack_failed, acks conn ack_ok ∷ map closes dropped, set_session ref s2 r)
finish_attach conn publisher ref port true false (some (req, s')) r =
    let (dropped, s2) = remove_pending req s' in
    (
      err request_failed,
      acks conn ack_ok ∷ requests publisher req port ∷ map closes dropped,
      set_session ref s2 r,
    )
finish_attach conn publisher ref port true true (some (req, s')) r =
    (ok req, acks conn ack_ok ∷ requests publisher req port ∷ [], set_session ref s' r)

-- `AttachSubscriberData`; the answer is the request's id.
unfoldable pub attach_subscriber_data : Peer → ℕ → ℕ → Bool → Bool → ℕ → Relay → Reply ℕ
attach_subscriber_data peer id port acked asked now r = elim (session_for id r) [
  | none ↦ (err no_such_session, acks peer.conn ack_no_such_session ∷ [], r)
  | some (ref, s) ↦
      if not (s.mode == mode_tcp)
      then (err mode_mismatch, acks peer.conn ack_mode_mismatch ∷ [], r)
      else if leb s.ports port
      then (err port_out_of_range, acks peer.conn ack_ports_mismatch ∷ [], r)
      else finish_attach peer.conn s.publisher ref port acked asked (add_pending peer port now s) r
]

-- AttachPublisherData behind `claimPending`. The answer is the subscriber's connection, now spliced
-- to the publisher's; `removeStream` follows when the splice ends.
unfoldable pub finish_pairing : ℕ → ℕ → ℕ → ℕ → Option (ℕ × ℕ) × Session → Relay → Reply ℕ
finish_pairing conn ref req now (none, s) r = (err unknown_request, [], r)
finish_pairing conn ref req now (some (sub, port), s) r =
    let (added, s') = add_stream req (record { port = port; started = now }) s in
    if added
    then (ok sub, splices sub conn ∷ [], set_session ref s' r)
    else (err no_such_session, closes sub ∷ closes conn ∷ [], set_session ref s' r)

unfoldable pub attach_publisher_data : ℕ → ℕ → Peer → ℕ → Relay → Reply ℕ
attach_publisher_data id req peer now r = elim (session_for id r) [
  | none ↦ (err no_such_session, [], r)
  | some (ref, s) ↦ elim peer.cert [
    | none ↦ (err no_certificate, [], r)
    | some cert ↦
        if cert == s.publisher_cert
        then finish_pairing peer.conn ref req now (claim_pending req s) r
        else (err not_publisher_cert, [], r)
  ]
]
