-- ===== src/Peer/Control.antt =====
-- internal/peer/control.go: the loop that reads a control connection. The handler is a function on a
-- state of its own, with `none` for a nil error, and `canceled t` is whether ctx has ended when the
-- loop looks for the t-th time. A round reads a frame of five bytes at least, so fuel above the number
-- of bytes that are still to be read is enough. The pings are written by a goroutine of their own.
pub mod Laws
use ggrok.Prelude.{ℕ, zero, suc, ◌+◌, Bool, true, false, List, [], ◌∷◌, Option, none, some}
use ggrok.Proto.Error.{Error}
use ggrok.Proto.Io.{Conn, done, failed}
use ggrok.Proto.Control.{control_ping, read_control_frame, write_control_frame}

-- What RunControlLoop returns: ctx's error, that of a read, or the handler's.
pub data LoopEnd {ℓ} (E : Type ℓ) : Type ℓ where
  context_ended : LoopEnd E
  read_control : Error → LoopEnd E
  handled : E → LoopEnd E

module _ {ℓ κ} {S : Type ℓ} {E : Type κ} (canceled : ℕ → Bool)
    (handle : ℕ → List ℕ → S → Option E × S) where
  unfoldable pub run_control_loop : ℕ → ℕ → S → Conn → Option (LoopEnd E × S × Conn)
  run_control_loop zero t s c = none
  run_control_loop (suc fuel) t s c = elim (canceled t) [
    | true ↦ some (context_ended, s, c)
    | false ↦ elim (read_control_frame c) [
      | failed e c' ↦ elim (canceled (t + 1)) [
        | true ↦ some (context_ended, s, c')
        | false ↦ some (read_control e, s, c')
      ]
      | done (typ, payload) c' ↦
          let (stopped, s') = handle typ payload s in
          elim stopped [
            | some e ↦ some (handled e, s', c')
            | none ↦ run_control_loop fuel (t + 1) s' c'
          ]
    ]
  ]

-- `sendPings` over its ticks, until one cannot be written or the loop has stopped.
unfoldable pub send_pings : ℕ → Conn → Conn
send_pings zero c = c
send_pings (suc ticks) c = elim (write_control_frame control_ping [] c) [
  | failed e c' ↦ c'
  | done _ c' ↦ send_pings ticks c'
]
