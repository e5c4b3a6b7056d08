-- ===== src/Relay/Session.antt =====
-- internal/relay/session.go: one active publisher and the peers attached to it. A connection is
-- named by a number, a certificate by the number of its DER bytes, and the time is an argument.
-- Every function here is one critical section of the session's lock, with the closing of
-- connections that follows it. What an entry shows an operator of a peer's name is left out.
pub mod Invariant
pub mod Certs
pub mod History
pub mod Ownership
pub mod Pairing
pub mod Shutdown
use ggrok.Prelude.{
  ℕ, suc, ◌+◌, ◌-◌, ◌%◌, ◌^◌, ◌≡◌, Bool, true, false, not, ◌||◌, List, [], ◌∷◌, ◌++◌, map, Option,
  none, some, length, leb, ◌==◌, if◌then◌else◌,
}
use ggrok.Prelude.Maps.{lookup, erase, insert}

abbrev pub max_session_peers : ℕ
max_session_peers = 1024

-- The next value of a uint64 counter.
abbrev pub next_u64 : ℕ → ℕ
next_u64 n = (n + 1) % 2 ^ 64

-- A connection as relay sees it: whether it is a `*tls.Conn`, and its leaf certificate
-- (`peerLeafCert` of registry.go; `none` is its error).
pub record Peer : Type 0 where
  pub conn : ℕ
  pub is_tls : Bool
  pub cert : Option ℕ

pub record Subscriber : Type 0 where
  pub control : ℕ
  pub cert_key : ℕ
  pub since : ℕ

pub record Pending : Type 0 where
  pub conn : ℕ
  pub port : ℕ
  pub since : ℕ

pub record Stream : Type 0 where
  pub port : ℕ
  pub started : ℕ

pub record Session : Type 0 where
  pub mode : ℕ
  pub ports : ℕ
  pub publisher : ℕ
  pub publisher_cert : ℕ
  pub since : ℕ
  pub closed : Bool
  pub subscribers : List (ℕ × Subscriber)
  pub next_sub_id : ℕ
  pub subscriber_certs : List (ℕ × ℕ)
  pub next_req_id : ℕ
  pub pending : List (ℕ × Pending)
  pub streams : List (ℕ × Stream)

unfoldable pub new_session : ℕ → ℕ → ℕ → ℕ → ℕ → Session
new_session mode ports publisher publisher_cert now = record {
  mode = mode;
  ports = ports;
  publisher = publisher;
  publisher_cert = publisher_cert;
  since = now;
  closed = false;
  subscribers = [];
  next_sub_id = 0;
  subscriber_certs = [];
  next_req_id = 0;
  pending = [];
  streams = [];
}

-- `s.subscriberCerts[key]`: zero for a key that is not there.
abbrev pub count_at : ℕ → List (ℕ × ℕ) → ℕ
count_at key certs = elim (lookup key certs) [ none ↦ 0 | some n ↦ n ]

unfoldable pub add_subscriber : Peer → ℕ → Session → Option (ℕ × Session)
add_subscriber peer now s = elim peer.cert [
  | none ↦ none
  | some key ↦
      if s.closed || leb max_session_peers (length s.subscribers)
      then none
      else some (
        s.next_sub_id,
        record s {
          next_sub_id = next_u64 s.next_sub_id;
          subscribers =
              insert s.next_sub_id (record { control = peer.conn; cert_key = key; since = now })
                s.subscribers;
          subscriber_certs = insert key (count_at key s.subscriber_certs + 1) s.subscriber_certs;
        },
      )
]

-- One subscriber of a certificate less; a count of zero is deleted.
unfoldable pub release_cert : ℕ → List (ℕ × ℕ) → List (ℕ × ℕ)
release_cert key certs =
    let left = count_at key certs - 1 in
    if left == 0 then erase key certs else insert key left certs

unfoldable pub remove_subscriber : ℕ → Session → Session
remove_subscriber id s = elim (lookup id s.subscribers) [
  | none ↦ s
  | some sub ↦ record s {
    subscribers = erase id s.subscribers;
    subscriber_certs = release_cert sub.cert_key s.subscriber_certs;
  }
]

unfoldable pub add_pending : Peer → ℕ → ℕ → Session → Option (ℕ × Session)
add_pending peer port now s = if not peer.is_tls then none else elim peer.cert [
  | none ↦ none
  | some key ↦
      if s.closed || leb max_session_peers (length s.pending)
      then none
      else if count_at key s.subscriber_certs == 0
      then none
      else some (
        s.next_req_id,
        record s {
          next_req_id = next_u64 s.next_req_id;
          pending =
              insert s.next_req_id (record { conn = peer.conn; port = port; since = now })
                s.pending;
        },
      )
]

-- The connection and the port of a request that is still there, and the session without it.
unfoldable pub claim_pending : ℕ → Session → Option (ℕ × ℕ) × Session
claim_pending id s = elim (lookup id s.pending) [
  | none ↦ (none, s)
  | some req ↦ (some (req.conn, req.port), record s { pending = erase id s.pending })
]

-- The connections that are closed, and the session.
unfoldable pub remove_pending : ℕ → Session → List ℕ × Session
remove_pending id s =
    let (claimed, s') = claim_pending id s in
    elim claimed [ none ↦ ([], s') | some (conn, port) ↦ (conn ∷ [], s') ]

unfoldable pub add_stream : ℕ → Stream → Session → Bool × Session
add_stream req_id stream s =
    if s.closed then (false, s) else (true, record s { streams = insert req_id stream s.streams })

unfoldable pub remove_stream : ℕ → Session → Session
remove_stream req_id s = record s { streams = erase req_id s.streams }

-- The requests and the subscribers' control connections that the caller now owns.
unfoldable pub begin_shutdown : Session → List (ℕ × Pending) × List ℕ × Session
begin_shutdown s = if s.closed then ([], [], s) else (
  s.pending,
  map (λ (e : ℕ × Subscriber). e.1.control) s.subscribers,
  record s { closed = true; pending = [] },
)

-- What `shutdown` does to the outside: it closes the connections of the requests, and tells each
-- subscriber that the session is over before it closes its control connection.
pub record Ended : Type 0 where
  pub closes : List ℕ
  pub tells : List ℕ

unfoldable pub shutdown : Session → Ended × ℕ × Session
shutdown s =
    let (pending, controls, s') = begin_shutdown s in
    (
      record { closes = map (λ (e : ℕ × Pending). e.1.conn) pending; tells = controls },
      length controls,
      s',
    )
