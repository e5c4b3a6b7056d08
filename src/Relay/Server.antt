-- ===== src/Relay/Server.antt =====
-- internal/relay/relay.go: what relay does with a connection that it accepted. The negotiated
-- protocol, the serial of the peer's certificate (`none` where peerLeafCert fails) and the socket that
-- the connection set tracks are arguments, and so is what the registry's functions take.
pub mod Admission
use ggrok.Prelude.{
  ℕ, ◌≡◌, Bool, true, false, List, [], ◌∷◌, ◌++◌, Option, none, some, Result, ok, err, ◌==◌,
  if◌then◌else◌, same_bytes,
}
use ggrok.Prelude.Bytes.{get_be}
use ggrok.Proto.Io.{Conn, done, failed}
use ggrok.Proto.Hello.{Hello, read_hello, role_publish, role_subscribe}
use ggrok.Proto.ConnKind.{read_conn_kind, conn_control, conn_data, conn_admin}
use ggrok.Proto.Attach.{Attach, read_attach, attach_subscriber, attach_publisher}
use ggrok.Proto.Auth.{alpn}
use ggrok.Relay.Session.{Peer}
use ggrok.Relay.Registry.{
  Relay, Event, closes, Reply, Request, register, subscribe, attach_subscriber_data,
  attach_publisher_data,
}
use ggrok.Relay.Connections.{ConnectionSet, authenticate}

-- The handler that a connection goes to, or its close.
pub data Dispatch : Type 0 where
  to_control to_data to_admin closed : Dispatch

-- The switch on the kind.
unfoldable pub dispatch : Bool → ℕ → Dispatch
dispatch admin kind =
    if kind == conn_control
    then to_control
    else if kind == conn_data
    then to_data
    else if kind == conn_admin
    then (if admin then to_admin else closed)
    else closed

unfoldable pub handle_conn :
    Bool
    → List ℕ
    → Option ℕ
    → Option ℕ
    → (ℕ → Bool)
    → Conn
    → ConnectionSet
    → Dispatch × Conn × ConnectionSet
handle_conn admin protocol serial tracked revoked c s = elim (read_conn_kind c) [
  | failed e c' ↦ (closed, c', s)
  | done kind c' ↦
      if same_bytes protocol alpn
      then elim serial [
        | none ↦ (closed, c', s)
        | some x ↦
            let (admitted, s') = authenticate tracked (some x) revoked s in
            (if admitted then dispatch admin kind else closed, c', s')
      ]
      else (closed, c', s)
]

-- The end of a handler that closes the connection over an error.
unfoldable pub close_on_error : ℕ → Reply ℕ → List Event × Relay
close_on_error conn (ok x, events, r) = (events, r)
close_on_error conn (err e, events, r) = (events ++ closes conn ∷ [], r)

unfoldable pub handle_data_conn : Peer → Bool → Bool → ℕ → Conn → Relay → List Event × Relay
handle_data_conn peer acked asked now c r = elim (read_attach c) [
  | failed e c' ↦ (closes peer.conn ∷ [], r)
  | done a c' ↦
      if a.kind == attach_subscriber
      then close_on_error peer.conn
          (attach_subscriber_data peer (get_be a.session_id) a.port acked asked now r)
      else if a.kind == attach_publisher
      then close_on_error peer.conn
          (attach_publisher_data (get_be a.session_id) a.request_id peer now r)
      else (closes peer.conn ∷ [], r)
]

-- What a control connection holds for the time of its heartbeat loop.
pub data Role : Type 0 where
  publishes : ℕ → ℕ → Role
  subscribes : ℕ → ℕ → Role

abbrev request_of : Hello → Request
request_of h = record { session_id = get_be h.session_id; mode = h.mode; ports = h.ports }

unfoldable pub published : ℕ → ℕ → Reply ℕ → Option Role × List Event × Relay
published conn id (err e, events, r) = (none, events ++ closes conn ∷ [], r)
published conn id (ok ref, events, r) = (some (publishes id ref), events, r)

unfoldable pub subscribed : ℕ → Reply (ℕ × ℕ) → Option Role × List Event × Relay
subscribed conn (err e, events, r) = (none, events ++ closes conn ∷ [], r)
subscribed conn (ok (ref, sub), events, r) = (some (subscribes ref sub), events, r)

-- handleControlConn up to its heartbeat loop.
unfoldable pub handle_control_conn :
    Peer → Bool → Bool → ℕ → Conn → Relay → Option Role × List Event × Relay
handle_control_conn peer claimed acked now c r = elim (read_hello c) [
  | failed e c' ↦ (none, closes peer.conn ∷ [], r)
  | done h c' ↦
      if h.role == role_publish
      then published peer.conn (get_be h.session_id)
          (register peer (request_of h) claimed acked now r)
      else if h.role == role_subscribe
      then subscribed peer.conn (subscribe peer (request_of h) acked now r)
      else (none, closes peer.conn ∷ [], r)
]
