-- ===== src/Relay/Heartbeat/Pongs.antt =====
-- internal/relay/relay.go: relay's loop on a control connection answers every ping, and nothing else.
use mathlib.Core.List.{append_assoc, append-nil}
use ggrok.Prelude.{
  ℕ, zero, suc, ◌+◌, ◌-◌, ◌≤◌, ◌<◌, ◌≡◌, refl, ap, Bool, false, inl, inr, List, [], ◌∷◌, ◌++◌, some,
  Bool-cases, length, All, arith, length-append, ◌==◌, if◌then◌else◌,
}
use ggrok.Proto.Io.{Conn, Outcome-cases, done, left, sent, write_full-fits, write_full_cases}
use ggrok.Proto.Control.{
  encode_frame, control_ping, control_pong, read_control_frame, write_control_frame,
}
use ggrok.Proto.Control.Laws.{read_control_frame-encode_frame}
use ggrok.Peer.Control.Laws.{
  read_control_frame-shorter, read_control_frame-empty, frames_bytes, Fits,
}
use ggrok.Relay.Heartbeat.{run_heartbeat_loop}

-- Sending leaves what is to be read.
write_control_frame-incoming :
    (typ : ℕ) (payload : List ℕ) (c : Conn) {c' : Conn}
    → write_control_frame typ payload c ≡ done tt c'
    → c'.incoming ≡ c.incoming
unfolding write_control_frame
write_control_frame-incoming typ payload c {c'} e =
    elim (write_full_cases (encode_frame typ payload) c) [
      | inl (fits, q) ↦ ground arith
      | inr (full, q) ↦ ground arith
    ]

pong_fits :
    (c : Conn)
    → length (encode_frame control_pong []) ≤ c.room
    → write_control_frame control_pong [] c ≡ done tt (sent (encode_frame control_pong []) c)
unfolding write_control_frame
pong_fits c h = ground (arith, write_full-fits (encode_frame control_pong []) c h)

unfoldable pub pongs : List (ℕ × List ℕ) → List ℕ
pongs [] = []
pongs ((typ, payload) ∷ fs) =
    let rest = pongs fs in
    if typ == control_ping then encode_frame control_pong [] ++ rest else rest

module _ (canceled : ℕ → Bool) where
  -- With more fuel than there are bytes to read, the heartbeat loop ends, whenever ctx ends.
  pub run_heartbeat_loop-ends :
      (fuel t : ℕ) (c : Conn)
      → length c.incoming < fuel
      → (c' : Conn) × (run_heartbeat_loop canceled fuel t c ≡ some c')
  unfolding run_heartbeat_loop
  run_heartbeat_loop-ends zero t c h = absurd (omega (arith, h))
  run_heartbeat_loop-ends (suc fuel) t c h = elim (Bool-cases (canceled t)) [
    | inl over ↦ (c, ground arith)
    | inr on ↦ elim (Outcome-cases (read_control_frame c)) [
      | inr (e, c', q) ↦ (c', ground arith)
      | inl ((typ, payload), c', q) ↦
          let fewer = read_control_frame-shorter c {f = (typ, payload)} {c' = c'} q in
          elim (Bool-cases (typ == control_ping)) [
            | inr other ↦
                let (last, ends) =
                  run_heartbeat_loop-ends fuel (t + 1) c' (omega (arith, h, fewer)) in
                (last, ground arith)
            | inl ping ↦ elim (Outcome-cases (write_control_frame control_pong [] c')) [
              | inr (e, c'', q') ↦ (c'', ground arith)
              | inl (u, c'', q') ↦
                  let same = write_control_frame-incoming control_pong [] c' {c' = c''} q' in
                  let (last, ends) =
                    run_heartbeat_loop-ends fuel (t + 1) c''
                      (omega (arith, h, fewer, ap length same)) in
                  (last, ground arith)
            ]
          ]
    ]
  ]

  -- If ctx does not end, the connection holds frames within the bound and nothing else, and there
  -- is room for the answers, the heartbeat loop reads all of them and writes one pong for every
  -- ping, and nothing else.
  pub run_heartbeat_loop-pongs :
      (fs : List (ℕ × List ℕ)) (fuel t : ℕ) (c : Conn)
      → ((n : ℕ) → canceled n ≡ false)
      → All Fits fs
      → c.incoming ≡ frames_bytes fs
      → c.broken ≡ false
      → length c.incoming < fuel
      → length (pongs fs) ≤ c.room
      → run_heartbeat_loop canceled fuel t c
        ≡ some (record c {
          incoming = [];
          outgoing = c.outgoing ++ pongs fs;
          room = c.room - length (pongs fs);
        })
  unfolding run_heartbeat_loop frames_bytes pongs
  run_heartbeat_loop-pongs fs zero t c on fit e ok h room = absurd (omega (arith, h))
  run_heartbeat_loop-pongs [] (suc fuel) t c on fit e ok h room =
      let end = read_control_frame-empty c e ok in
      let off = on t in ground (arith, append-nil c.outgoing)
  run_heartbeat_loop-pongs ((typ, payload) ∷ fs) (suc fuel) t c on fit e ok h room =
      let rest = frames_bytes fs in
      let q = read_control_frame-encode_frame typ payload rest c fit.0 e in
      let off = on t in
      let fewer = read_control_frame-shorter c {f = (typ, payload)} {c' = left rest c} q in
      elim (Bool-cases (typ == control_ping)) [
        | inr other ↦
            let later =
              run_heartbeat_loop-pongs fs fuel (t + 1) (left rest c) on fit.1 refl ok
                (omega (arith, h, fewer)) (ground arith) in
            ground arith
        | inl ping ↦
            let p = encode_frame control_pong [] in
            let w : write_control_frame control_pong [] (left rest c)
                ≡ done tt (sent p (left rest c)) =
              pong_fits (left rest c) (ground (arith, length-append p (pongs fs))) in
            let count = length-append p (pongs fs) in
            let later =
              run_heartbeat_loop-pongs fs fuel (t + 1) (sent p (left rest c)) on fit.1 refl ok
                (omega (arith, h, fewer)) (ground (arith, count)) in
            ground (arith, count, append_assoc c.outgoing p (pongs fs))
      ]
