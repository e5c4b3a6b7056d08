-- ===== src/Relay/Registry/Data.antt =====
-- internal/relay/registry.go: lemmas on the attaches of the two data connections of a stream.
use ggrok.Prelude.{
  ℕ, ◌<◌, ◌≡◌, ◌≢◌, ◌∙◌, inl, inr, true, false, List, [], ◌∷◌, none, some, Option-cases, Bool-cases,
  ok, arith, ◌==◌,
}
use ggrok.Prelude.Maps.{lookup, erase, insert, lookup-insert, lookup-erase}
use ggrok.Proto.Hello.{ack_ok}
use ggrok.Relay.Session.{Session, Peer, Pending, add_pending, claim_pending, add_stream}
use ggrok.Relay.Registry.{
  Relay, Event, acks, requests, splices, session_for, set_session, finish_attach,
  attach_subscriber_data, finish_pairing, attach_publisher_data,
}

session_for-set_session :
    (id ref : ℕ) (r : Relay) {s : Session} (s' : Session)
    → session_for id r ≡ some (ref, s)
    → session_for id (set_session ref s' r) ≡ some (ref, s')
unfolding session_for
session_for-set_session id ref r {s} s' e = elim (Option-cases (lookup id r.sessions)) [
  | inl gone ↦ absurd (ground arith)
  | inr (x, q) ↦ elim (Option-cases (lookup x r.heap)) [
    | inl dangling ↦ absurd (ground arith)
    | inr (t, q') ↦
        let same : x ≡ ref = ground arith in ground (arith, lookup-insert ref ref s' r.heap)
  ]
]

-- When a publisher's data connection is paired, it showed the certificate that took the session's
-- slot, it is spliced to the connection that waited under its request, and no attach that follows
-- at once is paired under that request again.
pub attach_publisher_data-ok :
    (id req : ℕ) (peer : Peer) (now : ℕ) (r : Relay) {sub : ℕ} {events : List Event} {r' : Relay}
    → attach_publisher_data id req peer now r ≡ (ok sub, events, r')
    → (ref : ℕ) × (s : Session) × (waiting : Pending) × (session_for id r ≡ some (ref, s))
      × (peer.cert ≡ some s.publisher_cert)
      × (lookup req s.pending ≡ some waiting)
      × (waiting.conn ≡ sub)
      × (events ≡ splices sub peer.conn ∷ [])
      × ((peer' : Peer) (later sub' : ℕ)
          → (attach_publisher_data id req peer' later r').0 ≢ ok sub')
unfolding attach_publisher_data finish_pairing claim_pending add_stream
attach_publisher_data-ok id req peer now r {sub} {events} {r'} e =
    elim (Option-cases (session_for id r)) [
      | inl gone ↦ absurd (ground arith)
      | inr ((ref, s), live) ↦ elim (Option-cases peer.cert) [
        | inl nobody ↦ absurd (ground arith)
        | inr (cert, is) ↦ elim (Bool-cases (cert == s.publisher_cert)) [
          | inr other ↦ absurd (ground arith)
          | inl its ↦ elim (Option-cases (lookup req s.pending)) [
            | inl unknown ↦ absurd (ground arith)
            | inr (waiting, found) ↦ elim (Bool-cases s.closed) [
              | inl over ↦ absurd (ground arith)
              | inr alive ↦
                  let s' : Session = record s {
                    pending = erase req s.pending;
                    streams = insert req (record { port = waiting.port; started = now }) s.streams;
                  } in
                  let now_r : r' ≡ set_session ref s' r = ground arith in
                  let there : session_for id r' ≡ some (ref, s') =
                    rw now_r (session_for-set_session id ref r s' live) in
                  let unclaimed : lookup req s'.pending ≡ none =
                    lookup-erase req req s.pending ∙ ground arith in
                  (
                    ref,
                    s,
                    waiting,
                    live,
                    ground arith,
                    found,
                    ground arith,
                    ground arith,
                    λ peer' later sub' again. ground arith,
                  )
            ]
          ]
        ]
      ]
    ]

add_pending-keeps :
    (peer : Peer) (port now : ℕ) (s : Session) {q : ℕ} {s' : Session}
    → add_pending peer port now s ≡ some (q, s')
    → (s'.publisher_cert ≡ s.publisher_cert)
      × (s'.closed ≡ false)
      × (lookup q s'.pending ≡ some (record { conn = peer.conn; port = port; since = now }))
unfolding add_pending
add_pending-keeps peer port now s {q} {s'} e = elim (Option-cases peer.cert) [
  | inl nobody ↦ absurd (ground arith)
  | inr (key, is) ↦
      let req : Pending = record { conn = peer.conn; port = port; since = now } in
      let slot = lookup-insert s.next_req_id s.next_req_id req s.pending in ground arith
]

-- When a subscriber's data connection is accepted for a live session, its port is one of the
-- session's, relay acks it and asks the publisher for exactly that port, and a connection with the
-- publisher's certificate that answers next is spliced to it.
pub attach_subscriber_data-answered :
    (id port now later ref : ℕ) (peer answer : Peer) (s : Session) (r : Relay) {req : ℕ}
    {events : List Event} {r1 : Relay}
    → session_for id r ≡ some (ref, s)
    → attach_subscriber_data peer id port true true now r ≡ (ok req, events, r1)
    → answer.cert ≡ some s.publisher_cert
    → (port < s.ports)
      × (events ≡ acks peer.conn ack_ok ∷ requests s.publisher req port ∷ [])
      × ((attach_publisher_data id req answer later r1).0 ≡ ok peer.conn)
      × ((attach_publisher_data id req answer later r1).1 ≡ splices peer.conn answer.conn ∷ [])
unfolding attach_subscriber_data finish_attach
attach_subscriber_data-answered id port now later ref peer answer s r {req} {events} {r1} live e
      same =
    elim (Option-cases (add_pending peer port now s)) [
      | inl refused ↦ absurd (ground arith)
      | inr ((q, s'), added) ↦
          let its : q ≡ req = ground arith in
          let now_r : r1 ≡ set_session ref s' r = ground arith in
          let there : session_for id r1 ≡ some (ref, s') =
            rw now_r (session_for-set_session id ref r s' live) in
          let (cert_same, alive, waits) = add_pending-keeps peer port now s added in
          let paired : (attach_publisher_data id req answer later r1).0 ≡ ok peer.conn =
            unfold attach_publisher_data finish_pairing claim_pending add_stream in ground arith in
          let spliced : (attach_publisher_data id req answer later r1).1
              ≡ splices peer.conn answer.conn ∷ [] =
            unfold attach_publisher_data finish_pairing claim_pending add_stream in ground arith in
          (ground arith, ground arith, paired, spliced)
    ]
