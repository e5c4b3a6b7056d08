-- ===== src/Examples/Control.antt =====
-- A control connection with two pings and a frame between them.
use ggrok.Prelude.{
  ℕ, ◌+◌, ◌-◌, ◌≡◌, ◌≤◌, refl, Bool, false, List, [], ◌∷◌, ◌++◌, Option, none, some, length, arith,
}
use ggrok.Prelude.Bytes.{put_be}
use ggrok.Proto.Io.{Conn}
use ggrok.Proto.Control.{encode_frame}
use ggrok.Peer.Control.{LoopEnd, run_control_loop}
use ggrok.Peer.Control.Laws.{
  frames_bytes, handle_all, end_of, run_control_loop-ends, run_control_loop-handle_all,
}
use ggrok.Relay.Heartbeat.{run_heartbeat_loop}
use ggrok.Relay.Heartbeat.Pongs.{pongs, run_heartbeat_loop-pongs}
use ggrok.Examples.Toy.{wire}

abbrev frames : List (ℕ × List ℕ)
frames = (1, []) ∷ (4, 1 ∷ []) ∷ (1, []) ∷ []

abbrev bytes : List ℕ
bytes = 1 ∷ 0 ∷ 0 ∷ 0 ∷ 0 ∷ 4 ∷ 0 ∷ 0 ∷ 0 ∷ 1 ∷ 1 ∷ 1 ∷ 0 ∷ 0 ∷ 0 ∷ 0 ∷ []

abbrev c : Conn
c = wire bytes

bytes_lem : bytes ≡ frames_bytes frames
unfolding frames_bytes encode_frame put_be
bytes_lem = refl

abbrev never : ℕ → Bool
never n = false

-- It counts, and stops at the frame that ends a session.
abbrev handle : ℕ → List ℕ → ℕ → Option ℕ × ℕ
handle typ [] s = (none, s + 1)
handle typ (b ∷ bs) s = (some b, s)

run_control_loop-ends_example :
    (r : LoopEnd ℕ × ℕ × Conn) × (run_control_loop never handle 17 0 0 c ≡ some r)
run_control_loop-ends_example = run_control_loop-ends never handle 17 0 0 c (omega arith)

run_control_loop-handle_all_example :
    (c' : Conn) × (run_control_loop never handle 17 0 0 c
      ≡ some (
        end_of never handle (handle_all never handle frames 0).0,
        (handle_all never handle frames 0).1,
        c',
      ))
run_control_loop-handle_all_example =
    run_control_loop-handle_all never handle frames 17 0 0 c (λ n. refl)
      (omega arith, (omega arith, (omega arith, tt))) bytes_lem refl (omega arith)

pongs_fit : length (pongs frames) ≤ 1000
unfolding pongs encode_frame put_be
pongs_fit = omega arith

run_heartbeat_loop-pongs_example :
    run_heartbeat_loop never 17 0 c
    ≡ some (record c {
      incoming = [];
      outgoing = [] ++ pongs frames;
      room = 1000 - length (pongs frames);
    })
run_heartbeat_loop-pongs_example =
    run_heartbeat_loop-pongs never frames 17 0 c (λ n. refl)
      (omega arith, (omega arith, (omega arith, tt))) bytes_lem refl (omega arith) pongs_fit
