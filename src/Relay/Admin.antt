-- ===== src/Relay/Admin.antt =====
-- internal/relay/admin.go: what relay answers on an admin connection, and loadRevokedSerials of
-- internal/relay/relay.go. A request is a frame with its type and body; the JSON decoder of a kill
-- request is a parameter, and a text that only informs the operator is a constructor of Detail. The
-- identity that an entry shows of a peer, and what a stream has carried, are parameters by the
-- connection and the request id. Whether a reply could be written is an argument.
pub mod Reveals
pub mod Reload
pub mod Snapshots
use ggrok.Prelude.{
  ℕ, suc, ◌+◌, Bool, true, false, not, List, [], ◌∷◌, ◌++◌, map, Option, none, some, Result, ok,
  err, length, ◌==◌, if◌then◌else◌,
}
use ggrok.Prelude.Maps.{lookup}
use ggrok.Ca.Serials.{Text, SerialError, serial_text, contains, parse_revoked_serials}
use ggrok.Mtls.{RevocationSet, is_revoked, replace}
use ggrok.Proto.Admin.{admin_hello, admin_list, admin_kick, admin_reload_crl, admin_kill}
use ggrok.Relay.Session.{Session, Subscriber, Pending, Stream}
use ggrok.Relay.Registry.{Relay, RelayError, Event, log_tag, kill}
use ggrok.Relay.Connections.{ConnectionSet, close, close_matching_after_reply, finish}

module _ {ℓ} (Identity : Type ℓ) where
  pub record PeerSummary : Type ℓ where
    pub identity : Identity
    pub since : ℕ

  pub record StreamSummary : Type 0 where
    pub req_id : ℕ
    pub port : ℕ
    pub started : ℕ
    pub bytes_to_sub : ℕ
    pub bytes_to_pub : ℕ

  pub record PendingSummary : Type ℓ where
    pub req_id : ℕ
    pub port : ℕ
    pub since : ℕ
    pub address : Identity

  pub record SessionSummary : Type ℓ where
    pub tag : ℕ
    pub mode : ℕ
    pub ports : ℕ
    pub since : ℕ
    pub publisher : PeerSummary
    pub subscribers : List PeerSummary
    pub streams : List StreamSummary
    pub pending : List PendingSummary

  module _ (identity : ℕ → Identity) (carried : ℕ → ℕ × ℕ) where
    -- `summarize`.
    unfoldable pub summarize : ℕ → Session → SessionSummary
    summarize id s = record {
      tag = log_tag id;
      mode = s.mode;
      ports = s.ports;
      since = s.since;
      publisher = record { identity = identity s.publisher; since = s.since };
      subscribers =
          map
            (λ (e : ℕ × Subscriber). record { identity = identity e.1.control; since = e.1.since })
            s.subscribers;
      streams =
          map
            (λ (e : ℕ × Stream). record {
              req_id = e.0;
              port = e.1.port;
              started = e.1.started;
              bytes_to_sub = (carried e.0).0;
              bytes_to_pub = (carried e.0).1;
            })
            s.streams;
      pending =
          map
            (λ (e : ℕ × Pending). record {
              req_id = e.0;
              port = e.1.port;
              since = e.1.since;
              address = identity e.1.conn;
            })
            s.pending;
    }

    -- The loop of Snapshot over the copied map.
    unfoldable pub summarize_all : Relay → List (ℕ × ℕ) → List SessionSummary
    summarize_all r [] = []
    summarize_all r ((id, ref) ∷ m) =
        let rest = summarize_all r m in
        elim (lookup ref r.heap) [ none ↦ rest | some s ↦ summarize id s ∷ rest ]

    unfoldable pub snapshot : Relay → List SessionSummary
    snapshot r = summarize_all r r.sessions

-- What the frames of an admin connection say.
pub data Detail : Type 0 where
  expected_hello not_an_admin kick_retired no_kill_tag malformed_kill no_revoked_file : Detail
  kill_error : RelayError → Detail
  killed_session : ℕ → ℕ → Detail
  reload_error : Option SerialError → Detail
  reloaded : ℕ → ℕ → ℕ → Detail
  unsupported : ℕ → Detail

pub data AdminReply {ℓ} (S : Type ℓ) : Type ℓ where
  welcome : AdminReply S
  refusal : Detail → AdminReply S
  snapshot_of : S → AdminReply S
  -- `OK`, `Detail` and `Affected`.
  result : Bool → Detail → ℕ → AdminReply S

-- What the admin plane reads and writes of the server.
pub record Plane : Type 0 where
  pub relay : Relay
  pub connections : ConnectionSet
  pub revoked : RevocationSet

-- `loadRevokedSerials` of a file that was named: `none` if it could not be opened.
unfoldable pub load_revoked_serials :
    (Text → Bool) → Option Text → Result (Option SerialError) (List Text)
load_revoked_serials fits none = err none
load_revoked_serials fits (some text) = elim (parse_revoked_serials fits text) [
  | err e ↦ err (some e)
  | ok serials ↦ ok serials
]

-- How many of the serials the set did not have.
unfoldable pub newly_revoked : RevocationSet → List Text → ℕ
newly_revoked old [] = 0
newly_revoked old (t ∷ ts) =
    let rest = newly_revoked old ts in if is_revoked old t then rest else suc rest

-- The set's Contains of a certificate's serial.
abbrev pub matches : RevocationSet → ℕ → Bool
matches revoked serial = is_revoked revoked (serial_text serial)

-- The swap and the eviction of serveReloadCRL, the finish func included; the sockets closed.
unfoldable pub enforce : List Text → ℕ → Plane → ℕ × List ℕ × Plane
enforce serials conn s =
    let revoked = replace serials s.revoked in
    let (closed, deferred, now, connections) =
      close_matching_after_reply (matches revoked) (some conn) s.connections in
    let (last, connections') = finish deferred connections in
    (closed, now ++ last, record s { revoked = revoked; connections = connections' })

-- What serves a request needs of its surroundings: the revoked file, `none` where none was named, and
-- the tag of a kill request, `some none` where it is empty and `none` where the body is malformed.
pub record Surroundings : Type 0 where
  pub fits : Text → Bool
  pub revoked_file : Option (Option Text)
  pub kill_tag : List ℕ → Option (Option ℕ)

module _ {ℓ} {S : Type ℓ} (view : Relay → S) (env : Surroundings) where
  -- `serveKill`.
  unfoldable pub serve_kill : List ℕ → Plane → AdminReply S × List Event × Plane
  serve_kill body s = elim (env.kill_tag body) [
    | none ↦ (result false malformed_kill 0, [], s)
    | some tag ↦ elim tag [
      | none ↦ (result false no_kill_tag 0, [], s)
      | some t ↦
          let (killed, events, relay) = kill t s.relay in
          elim killed [
            | err e ↦ (result false (kill_error e) 0, events, record s { relay = relay })
            | ok notified ↦ (
              result true (killed_session t notified) notified,
              events,
              record s { relay = relay },
            )
          ]
    ]
  ]

  -- `serveReloadCRL` on the socket `conn`.
  unfoldable pub serve_reload_crl : ℕ → Plane → AdminReply S × List ℕ × Plane
  serve_reload_crl conn s = elim env.revoked_file [
    | none ↦ (result false no_revoked_file 0, [], s)
    | some file ↦ elim (load_revoked_serials env.fits file) [
      | err e ↦ (result false (reload_error e) 0, [], s)
      | ok serials ↦
          let added = newly_revoked s.revoked serials in
          let (closed, sockets, s') = enforce serials conn s in
          (result true (reloaded (length serials) added closed) closed, sockets, s')
    ]
  ]

  -- `serveAdminRequest`: the reply, what it does to sessions, the sockets it closes, and the server.
  unfoldable pub serve_admin_request :
      ℕ → ℕ → List ℕ → Plane → AdminReply S × List Event × List ℕ × Plane
  serve_admin_request conn typ body s =
      if typ == admin_list
      then (snapshot_of (view s.relay), [], [], s)
      else if typ == admin_kick
      then (result false kick_retired 0, [], [], s)
      else if typ == admin_kill
      then (let (reply, events, s') = serve_kill body s in (reply, events, [], s'))
      else if typ == admin_reload_crl
      then (let (reply, sockets, s') = serve_reload_crl conn s in (reply, [], sockets, s'))
      else (result false (unsupported typ) 0, [], [], s)

  -- The request loop of serveAdmin: each frame with whether its reply could be written. It ends with
  -- the frames, when a read fails or ctx ends.
  unfoldable pub serve_admin :
      ℕ → List (ℕ × List ℕ × Bool) → Plane → List (AdminReply S) × List Event × List ℕ × Plane
  serve_admin conn [] s = ([], [], [], s)
  serve_admin conn ((typ, body, written) ∷ frames) s =
      let (reply, events, sockets, s') = serve_admin_request conn typ body s in
      elim written [
        | false ↦ (reply ∷ [], events, sockets, s')
        | true ↦
            let (replies, events', sockets', s'') = serve_admin conn frames s' in
            (reply ∷ replies, events ++ events', sockets ++ sockets', s'')
      ]

  -- The body of handleAdminConn, without its deferred close: the first frame, whether the hello could
  -- be decoded, and whether the certificate has the admin role (`HasAdminEKU`).
  unfoldable pub answer_admin :
      ℕ
      → Option ℕ
      → Bool
      → Bool
      → Bool
      → List (ℕ × List ℕ × Bool)
      → Plane
      → List (AdminReply S) × List Event × List ℕ × Plane
  answer_admin conn none decoded role welcomed frames s = ([], [], [], s)
  answer_admin conn (some typ) decoded role welcomed frames s =
      if not (typ == admin_hello)
      then (refusal expected_hello ∷ [], [], [], s)
      else if not decoded
      then ([], [], [], s)
      else if not role
      then (refusal not_an_admin ∷ [], [], [], s)
      else if not welcomed
      then (welcome ∷ [], [], [], s)
      else let (replies, events, sockets, s') = serve_admin conn frames s in
        (welcome ∷ replies, events, sockets, s')

  -- `handleAdminConn`, which always closes its socket, and so takes it off the set.
  unfoldable pub handle_admin_conn :
      ℕ
      → Option ℕ
      → Bool
      → Bool
      → Bool
      → List (ℕ × List ℕ × Bool)
      → Plane
      → List (AdminReply S) × List Event × List ℕ × Plane
  handle_admin_conn conn first decoded role welcomed frames s =
      let (replies, events, sockets, s') = answer_admin conn first decoded role welcomed frames s in
      (replies, events, sockets ++ conn ∷ [], record s' { connections = close conn s'.connections })
