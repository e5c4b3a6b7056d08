-- ===== src/Proto/Frames/RoundTrip.antt =====
-- internal/proto/frame_conn.go: a Write at one end and the frames read at the other.
use mathlib.Core.List.{append_assoc, append-nil}
use ggrok.Prelude.{
  ℕ, zero, suc, ◌+◌, ◌≤◌, ◌≡◌, ◌⊎◌, inl, inr, List, [], ◌∷◌, ◌++◌, ap, sym, ◌∙◌, refl, arith,
  length, take, drop, take-append-drop, take-of_drop_nil, length-take-drop, length-take-le, Option,
  none, some, Option-cases,
}
use mathlib.Core.Path.{subst}
use ggrok.Proto.Error.{Error}
use ggrok.Proto.Crypto.{Primitives, Lawful}
use ggrok.Proto.Frames.{
  EncryptedConn, Framed, Framed-cases, framed, frame_failed, wrote, max_frame_plaintext,
  frame_bytes, write_frame, write_loop, write, read_frame,
}
use ggrok.Proto.Frames.Codec.{Matched, after_frame, write_frame-framed, read_frame-frame_bytes}

module _ (p : Primitives) where
  -- The text of the next `k` frames.
  pub receive : ℕ → EncryptedConn → Option (List ℕ × EncryptedConn)
  receive zero r = some ([], r)
  receive (suc k) r = elim (read_frame p r) [
    | frame_failed e r' ↦ none
    | framed r' ↦ elim (receive k r') [
      | none ↦ none
      | some (text, r'') ↦ some (r'.plain ++ text, r'')
    ]
  ]

  receive-suc :
      (k : ℕ) (r r1 r2 : EncryptedConn) (text : List ℕ)
      → read_frame p r ≡ framed r1
      → receive k r1 ≡ some (text, r2)
      → receive (suc k) r ≡ some (r1.plain ++ text, r2)
  unfolding receive
  receive-suc k r r1 r2 text e f = ground arith

  receive-add :
      (j k : ℕ) (r r1 r2 : EncryptedConn) (a b : List ℕ)
      → receive j r ≡ some (a, r1)
      → receive k r1 ≡ some (b, r2)
      → receive (j + k) r ≡ some (a ++ b, r2)
  unfolding receive
  receive-add zero k r r1 r2 a b e f =
      let same : zero + k ≡ k = omega arith in rw same (ground arith)
  receive-add (suc j) k r r1 r2 a b e f = elim (Framed-cases (read_frame p r)) [
    | inr (x, c, q) ↦ absurd (ground arith)
    | inl (r0, q) ↦ elim (Option-cases (receive j r0)) [
      | inl ended ↦ absurd (ground arith)
      | inr ((text, r'), q') ↦
          let same : suc j + k ≡ suc (j + k) = omega arith in
          let later = receive-add j k r0 r1 r2 text b (ground arith) f in
          rw same (ground (arith, later, append_assoc r0.plain text b))
    ]
  ]

  -- The other end gets `text` and is matched to the writer again.
  abbrev pub Arrives : EncryptedConn → EncryptedConn → List ℕ → List ℕ → Type 0
  Arrives w' r text tail =
      (k : ℕ) × (r' : EncryptedConn) × (receive k r ≡ some (text, r'))
      × Matched w' r'
      × (r'.conn.incoming ≡ tail)

  -- What is sent, so that it arrives.
  abbrev Sends : EncryptedConn → EncryptedConn → List ℕ → Type 0
  Sends w w' text =
      (bytes : List ℕ) × (w'.conn.outgoing ≡ w.conn.outgoing ++ bytes)
      × ((r : EncryptedConn) (tail : List ℕ)
          → Matched w r
          → r.conn.incoming ≡ bytes ++ tail
          → Arrives w' r text tail)

  module _ (laws : Lawful p) where
    Matched-after_frame :
        (w r : EncryptedConn) (chunk rest : List ℕ) {w' : EncryptedConn}
        → Matched w r
        → write_frame p w chunk ≡ framed w'
        → Matched w' (after_frame w chunk rest r)
    Matched-after_frame w r chunk rest {w'} m e =
        let now = (write_frame-framed p w chunk e).1 in
        rw now (record {
          key = m.key;
          seq = refl;
          seen = refl;
          prefix = λ _. refl;
          length_prefix = m.length_prefix;
        })

    frame-Sends :
        (w w' : EncryptedConn) (chunk : List ℕ)
        → length chunk ≤ max_frame_plaintext
        → write_frame p w chunk ≡ framed w'
        → Sends w w' chunk
    unfolding receive
    frame-Sends w w' chunk fits e =
        let (room, now) = write_frame-framed p w chunk e in
        (
          frame_bytes p w chunk,
          rw now refl,
          λ r tail m bytes. (
            1,
            after_frame w chunk tail r,
            receive-suc 0 r (after_frame w chunk tail r) (after_frame w chunk tail r) []
                  (read_frame-frame_bytes p laws w r chunk tail m room fits bytes) refl
                ∙ rw (append-nil chunk),
            Matched-after_frame w r chunk tail m e,
            refl,
          ),
        )

    write_loop_step :
        (fuel : ℕ) (rest : List ℕ) (written : ℕ) (w : EncryptedConn) {n : ℕ} {w' : EncryptedConn}
        → write_loop p (suc fuel) rest written w ≡ wrote n w'
        → ((w1 : EncryptedConn) × (write_frame p w (take max_frame_plaintext rest) ≡ framed w1)
            × (drop max_frame_plaintext rest ≡ [])
            × (n ≡ written + length (take max_frame_plaintext rest))
            × (w' ≡ w1))
          ⊎ ((w1 : EncryptedConn) × (write_frame p w (take max_frame_plaintext rest) ≡ framed w1)
              × (write_loop p fuel
                    (drop max_frame_plaintext rest)
                    (written + length (take max_frame_plaintext rest))
                    w1
                  ≡ wrote n w'))
    unfolding write_loop
    write_loop_step fuel rest written w {n} {w'} e =
        go (write_frame p w (take max_frame_plaintext rest)) refl (drop max_frame_plaintext rest)
          refl
      where
        go :
            (f : Framed)
            → write_frame p w (take max_frame_plaintext rest) ≡ f
            → (more : List ℕ) → drop max_frame_plaintext rest ≡ more
            → ((w1 : EncryptedConn) × (write_frame p w (take max_frame_plaintext rest) ≡ framed w1)
                × (drop max_frame_plaintext rest ≡ [])
                × (n ≡ written + length (take max_frame_plaintext rest))
                × (w' ≡ w1))
              ⊎ ((w1 : EncryptedConn) × (write_frame p w (take max_frame_plaintext rest)
                    ≡ framed w1)
                  × (write_loop p fuel
                        (drop max_frame_plaintext rest)
                        (written + length (take max_frame_plaintext rest))
                        w1
                      ≡ wrote n w'))
        go (frame_failed e' c) q more d = absurd (ground arith)
        go (framed w1) q [] d = inl (w1, q, d, ground arith, ground arith)
        go (framed w1) q (b ∷ more) d = inr (w1, q, ground arith)

    Sends-append :
        (w w1 w2 : EncryptedConn) (a b : List ℕ)
        → Sends w w1 a
        → Sends w1 w2 b
        → Sends w w2 (a ++ b)
    Sends-append w w1 w2 a b (x, ex, ax) (y, ey, ay) = (
      x ++ y,
      ey ∙ rw ex (append_assoc w.conn.outgoing x y),
      λ r tail m bytes.
          let (j, r1, ej, m1, t1) = ax r (y ++ tail) m (bytes ∙ append_assoc x y tail) in
          let (k, r2, ek, m2, t2) = ay r1 tail m1 t1 in
          (j + k, r2, receive-add j k r r1 r2 a b ej ek, m2, t2),
    )

    write_loop-Sends :
        (fuel : ℕ) (rest : List ℕ) (written : ℕ) (w : EncryptedConn) {n : ℕ} {w' : EncryptedConn}
        → write_loop p fuel rest written w ≡ wrote n w'
        → (n ≡ written + length rest) × Sends w w' rest
    write_loop-Sends zero rest written w e = unfold write_loop in absurd (ground arith)
    write_loop-Sends (suc fuel) rest written w {n} {w'} e =
        elim (write_loop_step fuel rest written w e) [
          | inl (w1, f, last, en, ew) ↦
              let whole : take max_frame_plaintext rest ≡ rest =
                take-of_drop_nil max_frame_plaintext rest last in
              (
                en ∙ ap (λ (t : List ℕ). written + length t) whole,
                rw ew (
                    subst (Sends w w1) whole (
                      frame-Sends w w1 (take max_frame_plaintext rest)
                        (length-take-le max_frame_plaintext rest) f)),
              )
          | inr (w1, f, more) ↦
              let chunk : List ℕ = take max_frame_plaintext rest in
              let others : List ℕ = drop max_frame_plaintext rest in
              let (en, s) = write_loop-Sends fuel others (written + length chunk) w1 more in
              (
                omega (arith, length-take-drop max_frame_plaintext rest),
                subst (Sends w w') (take-append-drop max_frame_plaintext rest) (
                    Sends-append w w1 w' chunk others
                      (frame-Sends w w1 chunk (length-take-le max_frame_plaintext rest) f) s),
              )
        ]

    write-Sends :
        (text : List ℕ) (w : EncryptedConn) {n : ℕ} {w' : EncryptedConn}
        → write p text w ≡ wrote n w'
        → (n ≡ length text) × Sends w w' text
    write-Sends text w {n} {w'} e = start text w.write_error refl e
      where
        start :
            (t : List ℕ) (we : Option Error)
            → w.write_error ≡ we
            → write p t w ≡ wrote n w'
            → (n ≡ length t) × Sends w w' t
        start t (some x) q e = unfold write in absurd (ground arith)
        start [] none q e =
            unfold write in
            let same : w' ≡ w = ground arith in
            (
              ground arith,
              rw same (
                [],
                sym (append-nil _),
                λ r tail m bytes. (0, r, unfold receive in refl, m, bytes),
              ),
            )
        start (b ∷ t) none q e =
            unfold write in
            let (size, s) =
              write_loop-Sends (length (b ∷ t)) (b ∷ t) 0 w {n = n} {w' = w'} (ground arith) in
            (omega arith, s)

    -- With lawful primitives and matched ends, what a Write that succeeds was given arrives at the
    -- other end: Write reports all of it, some number of frames read there give the same bytes,
    -- and the ends are matched again with the bytes that follow unread.
    pub write-receive :
        (text tail : List ℕ) (w r : EncryptedConn) {n : ℕ} {w' : EncryptedConn}
        → Matched w r
        → w.conn.outgoing ≡ []
        → write p text w ≡ wrote n w'
        → r.conn.incoming ≡ w'.conn.outgoing ++ tail
        → (n ≡ length text) × Arrives w' r text tail
    write-receive text tail w r m clean e got =
        let (size, (bytes, out, arrive)) = write-Sends text w e in
        (
          size,
          arrive r tail m
              (got ∙ ap (λ (t : List ℕ). t ++ tail) (out ∙ ap (λ (t : List ℕ). t ++ bytes) clean)),
        )
