-- ===== src/Relay/Heartbeat.antt =====
-- internal/relay/relay.go: relay's loop on a control connection. Fuel and `canceled` are as in
-- internal/peer/control.go.
pub mod Pongs
use ggrok.Prelude.{ℕ, zero, suc, ◌+◌, Bool, true, false, List, [], ◌∷◌, Option, none, some, ◌==◌}
use ggrok.Proto.Io.{Conn, done, failed}
use ggrok.Proto.Control.{control_ping, control_pong, read_control_frame, write_control_frame}

module _ (canceled : ℕ → Bool) where
  unfoldable pub run_heartbeat_loop : ℕ → ℕ → Conn → Option Conn
  run_heartbeat_loop zero t c = none
  run_heartbeat_loop (suc fuel) t c = elim (canceled t) [
    | true ↦ some c
    | false ↦ elim (read_control_frame c) [
      | failed e c' ↦ some c'
      | done (typ, payload) c' ↦ elim (typ == control_ping) [
        | false ↦ run_heartbeat_loop fuel (t + 1) c'
        | true ↦ elim (write_control_frame control_pong [] c') [
          | failed e c'' ↦ some c''
          | done _ c'' ↦ run_heartbeat_loop fuel (t + 1) c''
        ]
      ]
    ]
  ]
