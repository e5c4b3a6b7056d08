-- ===== src/Peer/Control/Laws.antt =====
-- internal/peer/control.go: that the loop ends, and which frames its handler sees.
use ggrok.Prelude.{
  ℕ, zero, suc, ◌+◌, ◌≤◌, ◌<◌, ◌≡◌, ◌∙◌, refl, ap, Bool, false, inl, inr, List, [], ◌∷◌, ◌++◌,
  Option, none, some, Option-cases, Bool-cases, length, leb, All, arith, length-append, drop,
}
use ggrok.Prelude.Bytes.{get_be}
use ggrok.Proto.Error.{eof}
use ggrok.Proto.Io.{Conn, Outcome-cases, done, failed, left, read_full_cases, read_full-empty}
use ggrok.Proto.Control.{encode_frame, max_control_payload, control_header_size, read_control_frame}
use ggrok.Proto.Control.Laws.{read_control_frame-encode_frame}
use ggrok.Peer.Control.{LoopEnd, context_ended, read_control, handled, run_control_loop}

-- A frame that was read took bytes.
pub read_control_frame-shorter :
    (c : Conn) {f : ℕ × List ℕ} {c' : Conn}
    → read_control_frame c ≡ done f c'
    → length c'.incoming < length c.incoming
unfolding read_control_frame
read_control_frame-shorter c {f} {c'} e = elim (read_full_cases control_header_size c) [
  | inr short ↦ absurd (ground arith)
  | inl (header, rest, len, split, took) ↦
      let size = get_be (drop 1 header) in
      elim (Bool-cases (leb size max_control_payload)) [
        | inr big ↦ absurd (ground arith)
        | inl small ↦ elim (read_full_cases size (left rest c)) [
          | inr short ↦ absurd (ground arith)
          | inl (payload, rest', len', split', took') ↦
              let its : c' ≡ left rest' c = ground arith in
              let whole : length c.incoming ≡ length header + length rest =
                ap length split ∙ length-append header rest in
              let part : length rest ≡ length payload + length rest' =
                ap length split' ∙ length-append payload rest' in
              rw its (omega (arith, whole, part, len))
        ]
      ]
]

pub read_control_frame-empty :
    (c : Conn)
    → c.incoming ≡ []
    → c.broken ≡ false
    → read_control_frame c ≡ failed eof (record c { incoming = [] })
unfolding read_control_frame
read_control_frame-empty c e ok = ground (arith, read_full-empty 4 c e ok)

-- Frames as they travel.
unfoldable pub frames_bytes : List (ℕ × List ℕ) → List ℕ
frames_bytes [] = []
frames_bytes ((typ, payload) ∷ fs) = encode_frame typ payload ++ frames_bytes fs

abbrev pub Fits : ℕ × List ℕ → Type 0
Fits f = length f.1 ≤ max_control_payload

module _ {ℓ κ} {S : Type ℓ} {E : Type κ} (canceled : ℕ → Bool)
    (handle : ℕ → List ℕ → S → Option E × S) where
  -- With more fuel than there are bytes to read, the control loop ends, for any handler and
  -- whenever ctx ends.
  pub run_control_loop-ends :
      (fuel t : ℕ) (s : S) (c : Conn)
      → length c.incoming < fuel
      → (r : LoopEnd E × S × Conn) × (run_control_loop canceled handle fuel t s c ≡ some r)
  unfolding run_control_loop
  run_control_loop-ends zero t s c h = absurd (omega (arith, h))
  run_control_loop-ends (suc fuel) t s c h = elim (Bool-cases (canceled t)) [
    | inl over ↦ ((context_ended, s, c), ground arith)
    | inr on ↦ elim (Outcome-cases (read_control_frame c)) [
      | inr (e, c', q) ↦ elim (Bool-cases (canceled (t + 1))) [
        | inl over ↦ ((context_ended, s, c'), ground arith)
        | inr still ↦ ((read_control e, s, c'), ground arith)
      ]
      | inl ((typ, payload), c', q) ↦ elim (Option-cases (handle typ payload s).0) [
        | inr (e, stop) ↦ ((handled e, (handle typ payload s).1, c'), ground arith)
        | inl next ↦
            let fewer = read_control_frame-shorter c {f = (typ, payload)} {c' = c'} q in
            let (r, ends) =
              run_control_loop-ends fuel (t + 1) (handle typ payload s).1 c'
                (omega (arith, h, fewer)) in
            (r, ground arith)
      ]
    ]
  ]

  -- The handler on every frame in turn, until it stops.
  unfoldable pub handle_all : List (ℕ × List ℕ) → S → Option E × S
  handle_all [] s = (none, s)
  handle_all ((typ, payload) ∷ fs) s =
      let (stopped, s') = handle typ payload s in
      elim stopped [ some e ↦ (some e, s') | none ↦ handle_all fs s' ]

  unfoldable pub end_of : Option E → LoopEnd E
  end_of none = read_control eof
  end_of (some e) = handled e

  -- If ctx does not end and the connection holds frames within the bound and nothing else, the
  -- control loop does what the handler does on these frames in turn: it ends with the handler's
  -- first error, or with the end of the connection after the last frame.
  pub run_control_loop-handle_all :
      (fs : List (ℕ × List ℕ)) (fuel t : ℕ) (s : S) (c : Conn)
      → ((n : ℕ) → canceled n ≡ false)
      → All Fits fs
      → c.incoming ≡ frames_bytes fs
      → c.broken ≡ false
      → length c.incoming < fuel
      → (c' : Conn) × (run_control_loop canceled handle fuel t s c
          ≡ some (end_of (handle_all fs s).0, (handle_all fs s).1, c'))
  unfolding run_control_loop handle_all end_of frames_bytes
  run_control_loop-handle_all fs zero t s c on fit e ok h = absurd (omega (arith, h))
  run_control_loop-handle_all [] (suc fuel) t s c on fit e ok h =
      let end = read_control_frame-empty c e ok in
      let off = on t in let off' = on (t + 1) in (record c { incoming = [] }, ground arith)
  run_control_loop-handle_all ((typ, payload) ∷ fs) (suc fuel) t s c on fit e ok h =
      let rest = frames_bytes fs in
      let q = read_control_frame-encode_frame typ payload rest c fit.0 (unfold frames_bytes in e) in
      let off = on t in
      elim (Option-cases (handle typ payload s).0) [
        | inr (x, stop) ↦ (left rest c, ground arith)
        | inl next ↦
            let fewer = read_control_frame-shorter c {f = (typ, payload)} {c' = left rest c} q in
            let (c', ends) =
              run_control_loop-handle_all fs fuel (t + 1) (handle typ payload s).1 (left rest c) on
                fit.1 refl ok (omega (arith, h, fewer)) in
            (c', ground arith)
      ]
