-- ===== src/Peer/Session.antt =====
-- internal/peer/session.go, and connect of internal/peer/reconnect.go: the connections that a peer
-- opens to relay. What the TLS dialer gives is an argument: `none` where it fails, or whether the
-- connection is a `*tls.Conn`, the protocol that was negotiated, and the connection.
pub mod Opening
use ggrok.Prelude.{
  ℕ, Bool, true, false, not, List, Option, none, some, Result, ok, err, ◌==◌, if◌then◌else◌,
  same_bytes,
}
use ggrok.Proto.Error.{Error}
use ggrok.Proto.Io.{Io, ◌>>=◌, ◌>>◌, return, Conn, done, failed}
use ggrok.Proto.ConnKind.{conn_control, write_conn_kind}
use ggrok.Proto.Hello.{read_ack}
use ggrok.Proto.Attach.{Attach, attach_subscriber, write_data_attach}
use ggrok.Proto.Crypto.{Primitives, Credentials}
use ggrok.Proto.Claim.{status_result, handshake}
use ggrok.Proto.Auth.{alpn, authenticate}

abbrev pub max_tunnels : ℕ
max_tunnels = 256

pub data PeerError : Type 0 where
  dial_failed unexpected_connection protocol_mismatch : PeerError
  protocol_error : Error → PeerError

-- A result, and the connection that was dialed for it with whether it is still open.
abbrev pub Opening {ℓ} : Type ℓ → Type ℓ
Opening A = Result PeerError A × Option (Conn × Bool)

unfoldable pub dial : Option (Bool × List ℕ × Conn) → Opening Conn
dial none = (err dial_failed, none)
dial (some (is_tls, protocol, c)) =
    if not is_tls
    then (err unexpected_connection, some (c, false))
    else if same_bytes protocol alpn
    then (ok c, some (c, true))
    else (err protocol_mismatch, some (c, false))

-- What OpenTunnel and connect do with the connection: they close it over an error.
unfoldable pub dialed {ℓ} : {A : Type ℓ} → Io A → Option (Bool × List ℕ × Conn) → Opening A
dialed m d =
    let (r, conn) = dial d in
    elim r [
      | err e ↦ (err e, conn)
      | ok c ↦ elim (m c) [
        | failed e c' ↦ (err (protocol_error e), some (c', false))
        | done a c' ↦ (ok a, some (c', true))
      ]
    ]

module _ (p : Primitives) where
  -- `attach`, with the random challenge of NewAuthenticatedConn; the answer is the stream secret.
  unfoldable pub attach : Option (List ℕ) → Credentials p → ℕ → Attach → Io (List ℕ)
  attach random creds role a = do
    write_data_attach (record a { session_id = creds.id })
    if a.kind == attach_subscriber then (do status ← read_ack; status_result status) else return tt
    authenticate p random creds role a.port

  unfoldable pub open_tunnel :
      Option (List ℕ)
      → Credentials p
      → ℕ
      → Attach
      → Option (Bool × List ℕ × Conn)
      → Opening (List ℕ)
  open_tunnel random creds role a d = dialed (attach random creds role a) d

  unfoldable pub connect :
      List ℕ → ℕ → ℕ → ℕ → Credentials p → Option (Bool × List ℕ × Conn) → Opening (Unit {0})
  connect random role mode ports creds d =
      dialed (do write_conn_kind conn_control; handshake p random role mode ports creds) d
