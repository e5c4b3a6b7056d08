-- ===== src/Proto/Frames/Sticky.antt =====
-- internal/proto/frame_conn.go: how a Write and a Read answer.
use ggrok.Prelude.{
  ℕ, zero, suc, ◌+◌, ◌≤◌, ◌<◌, ◌≡◌, inl, inr, List, [], ◌∷◌, ap, arith, length, take, drop,
  List-cases, length-take-drop, length-take-le, ◌==◌, some, Option-cases, Bool-cases,
}
use ggrok.Proto.Error.{Error}
use ggrok.Proto.Io.{write_full_cases}
use ggrok.Proto.Crypto.{Primitives}
use ggrok.Proto.Frames.{
  EncryptedConn, Framed-cases, frame_failed, write_failed, got, read_failed, max_frame_plaintext,
  max_uint64, frame_bytes, write_frame, write_loop, write, read_frame, take_plain, read_loop, read,
}

taken :
    (n b : ℕ) (t : List ℕ) → 0 < n → (0 < length (take n (b ∷ t))) × (length (take n (b ∷ t)) ≤ n)
taken zero b t h = absurd (omega arith)
taken (suc n) b t h = omega (arith, length-take-le n t)

module _ (p : Primitives) where
  write_frame-failed :
      (c : EncryptedConn) (chunk : List ℕ) {e : Error} {c' : EncryptedConn}
      → write_frame p c chunk ≡ frame_failed e c'
      → c'.write_error ≡ some e
  unfolding write_frame
  write_frame-failed c chunk {e} {c'} h = elim (Bool-cases (c.write_seq == max_uint64)) [
    | inl top ↦ ground arith
    | inr more ↦ elim (write_full_cases (frame_bytes p c chunk) c.conn) [
      | inl (_, q) ↦ ground arith
      | inr (_, q) ↦ ground arith
    ]
  ]

  write_loop-failed :
      (fuel : ℕ) (rest : List ℕ) (written : ℕ) (c : EncryptedConn) {n : ℕ} {e : Error}
      {c' : EncryptedConn}
      → write_loop p fuel rest written c ≡ write_failed n e c'
      → (c'.write_error ≡ some e) × (n ≤ written + length rest)
  unfolding write_loop
  write_loop-failed zero rest written c h = absurd (ground arith)
  write_loop-failed (suc fuel) rest written c {n} {e} {c'} h =
      elim (Framed-cases (write_frame p c (take max_frame_plaintext rest))) [
        | inr (x, c1, q) ↦
            let kept = write_frame-failed c (take max_frame_plaintext rest) q in ground arith
        | inl (c1, q) ↦ elim (List-cases (drop max_frame_plaintext rest)) [
          | inl d ↦ absurd (ground arith)
          | inr (b, more, d) ↦
              let (kept, le) =
                write_loop-failed fuel (b ∷ more) (written + length (take max_frame_plaintext rest))
                  c1 {n = n} {e = e} {c' = c'} (ground arith) in
              (kept, omega (arith, length-take-drop max_frame_plaintext rest, ap length d))
        ]
      ]

  -- A Write that fails reports no more bytes than it was given, and a Write after it fails with
  -- the same error, reports none and changes nothing.
  pub write-failed_stays :
      (text later : List ℕ) (c : EncryptedConn) {n : ℕ} {e : Error} {c' : EncryptedConn}
      → write p text c ≡ write_failed n e c'
      → (n ≤ length text) × (write p later c' ≡ write_failed 0 e c')
  write-failed_stays text later c {n} {e} {c'} h =
      let (le, kept) = parts text h in (le, unfold write in ground arith)
    where
      parts :
          (t : List ℕ)
          → write p t c ≡ write_failed n e c'
          → (n ≤ length t) × (c'.write_error ≡ some e)
      parts [] h = unfold write in ground arith
      parts (b ∷ t) h = elim (Option-cases c.write_error) [
        | inr (x, q) ↦ unfold write in ground arith
        | inl q ↦
            let loop : write_loop p (length (b ∷ t)) (b ∷ t) 0 c ≡ write_failed n e c' =
              unfold write in ground arith in
            let (kept, le) = write_loop-failed (length (b ∷ t)) (b ∷ t) 0 c loop in
            (omega arith, kept)
      ]

  read_loop-failed :
      (fuel n : ℕ) (c : EncryptedConn) {e : Error} {c' : EncryptedConn}
      → read_loop p fuel n c ≡ read_failed e c'
      → c'.read_error ≡ some e
  unfolding read_loop
  read_loop-failed zero n c h = absurd (ground arith)
  read_loop-failed (suc fuel) n c {e} {c'} h = elim (List-cases c.plain) [
    | inr (b, t, q) ↦ absurd (unfold take_plain in ground arith)
    | inl q ↦ elim (Framed-cases (read_frame p c)) [
      | inr (x, c1, r) ↦ ground arith
      | inl (c1, r) ↦ read_loop-failed fuel n c1 {e = e} {c' = c'} (ground arith)
    ]
  ]

  -- After a Read that fails, a Read into a buffer that is not empty fails with the same error and
  -- changes nothing.
  pub read-failed_stays :
      (n m : ℕ) (c : EncryptedConn) {e : Error} {c' : EncryptedConn}
      → 0 < m
      → read p n c ≡ read_failed e c'
      → read p m c' ≡ read_failed e c'
  unfolding read
  read-failed_stays n m c {e} {c'} pos h =
      ground (arith, read_loop-failed (suc (suc (length c.conn.incoming))) n c {e = e} {c' = c'})

  read_loop-got :
      (fuel n : ℕ) (c : EncryptedConn) {bs : List ℕ} {c' : EncryptedConn}
      → 0 < n
      → read_loop p fuel n c ≡ got bs c'
      → (0 < length bs) × (length bs ≤ n)
  unfolding read_loop
  read_loop-got zero n c pos h = absurd (ground arith)
  read_loop-got (suc fuel) n c {bs} {c'} pos h = elim (List-cases c.plain) [
    | inr (b, t, q) ↦
        let took : bs ≡ take n (b ∷ t) = unfold take_plain in ground arith in
        rw took (taken n b t pos)
    | inl q ↦ elim (Framed-cases (read_frame p c)) [
      | inr (x, c1, r) ↦ absurd (ground arith)
      | inl (c1, r) ↦ read_loop-got fuel n c1 {bs = bs} {c' = c'} pos (ground arith)
    ]
  ]

  -- A Read that succeeds into a buffer that is not empty gives a byte at least, and no more than
  -- fit.
  pub read-got :
      (n : ℕ) (c : EncryptedConn) {bs : List ℕ} {c' : EncryptedConn}
      → 0 < n
      → read p n c ≡ got bs c'
      → (0 < length bs) × (length bs ≤ n)
  unfolding read
  read-got n c {bs} {c'} pos h =
      read_loop-got (suc (suc (length c.conn.incoming))) n c {bs = bs} {c' = c'} pos (ground arith)
