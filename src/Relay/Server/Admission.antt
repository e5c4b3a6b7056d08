-- ===== src/Relay/Server/Admission.antt =====
-- internal/relay/relay.go: who gets past handleConn.
use ggrok.Prelude.{
  ℕ, ◌≡◌, ◌≢◌, ◌∙◌, sym, ◌⊎◌, inl, inr, refl, Bool, true, false, List, Option, none, some,
  Option-cases, Bool-cases, same_bytes, same_bytes→eq, arith,
}
use mathlib.Core.Path.{subst}
use ggrok.Prelude.Maps.{lookup, lookup-insert}
use ggrok.Proto.Io.{Conn, Outcome-cases, done}
use ggrok.Proto.ConnKind.{conn_control, conn_data, conn_admin, read_conn_kind}
use ggrok.Proto.Auth.{alpn}
use ggrok.Relay.Connections.{ConnectionSet, authenticate}
use ggrok.Relay.Server.{Dispatch, closed, to_control, to_data, to_admin, dispatch, handle_conn}

authenticate-true :
    (tracked : Option ℕ) (x : ℕ) (revoked : ℕ → Bool) (s : ConnectionSet) {s' : ConnectionSet}
    → authenticate tracked (some x) revoked s ≡ (true, s')
    → (conn : ℕ) × (old : Option ℕ) × (tracked ≡ some conn)
      × (lookup conn s ≡ some old)
      × (revoked x ≡ false)
      × (lookup conn s' ≡ some (some x))
unfolding authenticate
authenticate-true none x revoked s e = absurd (ground arith)
authenticate-true (some conn) x revoked s {s'} e = elim (Option-cases (lookup conn s)) [
  | inl gone ↦ absurd (ground arith)
  | inr (old, held) ↦ elim (Bool-cases (revoked x)) [
    | inl banned ↦ absurd (ground arith)
    | inr fine ↦ (conn, old, refl, held, fine, ground (arith, lookup-insert conn conn (some x) s))
  ]
]

-- A handler, with the kind of connection that it is for, and what it needs to be turned on.
abbrev pub Serves : Bool → ℕ → Dispatch → Type 0
Serves admin kind d =
    ((kind ≡ conn_control) × (d ≡ to_control))
    ⊎ ((kind ≡ conn_data) × (d ≡ to_data))
    ⊎ ((kind ≡ conn_admin) × (d ≡ to_admin) × (admin ≡ true))

dispatch-Serves :
    (admin : Bool) (kind : ℕ)
    → dispatch admin kind ≢ closed
    → Serves admin kind (dispatch admin kind)
unfolding dispatch
dispatch-Serves admin kind open_d = ground arith

-- When handleConn does not close a connection, it goes to the handler of its kind: the control
-- handler for kind 1, the data handler for kind 2, the admin handler for kind 3 and only if the
-- admin plane is on; TLS had negotiated ggrok's protocol, the certificate is not revoked, and the
-- socket was tracked and is now tracked with the serial of that certificate.
pub handle_conn-admitted :
    (admin : Bool) (protocol : List ℕ) (serial tracked : Option ℕ) (revoked : ℕ → Bool) (c : Conn)
    (s : ConnectionSet) {d : Dispatch} {c' : Conn} {s' : ConnectionSet}
    → handle_conn admin protocol serial tracked revoked c s ≡ (d, c', s')
    → d ≢ closed
    → (kind conn x : ℕ) × (old : Option ℕ) × (read_conn_kind c ≡ done kind c')
      × Serves admin kind d
      × (protocol ≡ alpn)
      × (serial ≡ some x)
      × (revoked x ≡ false)
      × (tracked ≡ some conn)
      × (lookup conn s ≡ some old)
      × (lookup conn s' ≡ some (some x))
unfolding handle_conn
handle_conn-admitted admin protocol serial tracked revoked c s {d} {c'} {s'} e open_d =
    elim (Outcome-cases (read_conn_kind c)) [
      | inr (x, c1, q) ↦ absurd (ground arith)
      | inl (kind, c1, q) ↦ elim (Bool-cases (same_bytes protocol alpn)) [
        | inr other ↦ absurd (ground arith)
        | inl same ↦ elim (Option-cases serial) [
          | inl nobody ↦ absurd (ground arith)
          | inr (x, its) ↦ elim (Bool-cases (authenticate tracked (some x) revoked s).0) [
            | inr refused ↦ absurd (ground arith)
            | inl admitted ↦
                let (conn, old, t, held, fine, now) =
                  authenticate-true tracked x revoked s {s' = s'} (ground arith) in
                (
                  kind,
                  conn,
                  x,
                  old,
                  ground arith,
                  handled kind (ground arith),
                  same_bytes→eq protocol alpn same,
                  its,
                  fine,
                  t,
                  held,
                  now,
                )
          ]
        ]
      ]
    ]
  where
    handled : (kind : ℕ) → d ≡ dispatch admin kind → Serves admin kind d
    handled kind same_d =
        subst (Serves admin kind) (sym same_d)
          (dispatch-Serves admin kind (λ z. open_d (same_d ∙ z)))
