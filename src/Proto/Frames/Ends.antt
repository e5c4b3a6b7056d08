-- ===== src/Proto/Frames/Ends.antt =====
-- internal/proto/frame_conn.go: the fuel of the loops of Write and Read.
use ggrok.Prelude.{
  ℕ, zero, suc, ◌+◌, ◌≤◌, ◌<◌, ◌≡◌, ◌≢◌, inl, inr, List, [], ◌∷◌, ap, arith, length, length-append,
  take, drop, length-drop, List-cases, true, false, Bool-cases, ltb,
}
use ggrok.Prelude.Bytes.{get_be}
use ggrok.Proto.Io.{left, read_full_cases}
use ggrok.Proto.Crypto.{Primitives}
use ggrok.Proto.Frames.{
  EncryptedConn, Framed-cases, framed, Written, Got, max_frame_plaintext, overhead, write_frame,
  write_loop, write, read_body, read_frame, take_plain, read_loop, read,
}

module _ (p : Primitives) where
  -- One round of `Write` takes a byte at least.
  write_loop-ne-stuck :
      (fuel : ℕ) (b : ℕ) (rest : List ℕ) (written : ℕ) (c : EncryptedConn)
      → length rest < fuel
      → write_loop p fuel (b ∷ rest) written c ≢ Written.stuck
  unfolding write_loop
  write_loop-ne-stuck zero b rest written c h e = absurd (omega arith)
  write_loop-ne-stuck (suc fuel) b rest written c h e =
      elim (Framed-cases (write_frame p c (take max_frame_plaintext (b ∷ rest)))) [
        | inr (x, c', q) ↦ ground arith
        | inl (c', q) ↦ elim (List-cases (drop max_frame_plaintext (b ∷ rest))) [
          | inl d ↦ ground arith
          | inr (b', more, d) ↦
              let short : length more < length rest =
                omega (arith, ap length d, length-drop max_frame_plaintext (b ∷ rest)) in
              write_loop-ne-stuck fuel b' more
                (written + length (take max_frame_plaintext (b ∷ rest))) c' (omega arith)
                (ground arith)
        ]
      ]

  -- The loop of Write ends: the fuel, a round for each byte, is enough for any text and any
  -- connection.
  pub write-ne-stuck : (text : List ℕ) (c : EncryptedConn) → write p text c ≢ Written.stuck
  unfolding write
  write-ne-stuck [] c e = ground arith
  write-ne-stuck (b ∷ rest) c e =
      ground (arith, write_loop-ne-stuck (length (b ∷ rest)) b rest 0 c (omega arith))

  -- A frame that is read takes eighteen bytes at least of the connection.
  read_body-shorter :
      (c : EncryptedConn) {c' : EncryptedConn}
      → read_body p c ≡ framed c'
      → length c'.conn.incoming + 18 ≤ length c.conn.incoming
  unfolding read_body
  read_body-shorter c {c'} e = elim (read_full_cases 2 c.conn) [
    | inr q ↦ absurd (ground arith)
    | inl (header, rest, len, split, q) ↦ elim (Bool-cases (ltb (get_be header) overhead)) [
      | inl short ↦ absurd (ground arith)
      | inr long ↦ elim (read_full_cases (get_be header) (left rest c.conn)) [
        | inr q' ↦ absurd (ground arith)
        | inl (sealed, more, len', split', q') ↦
            let kept : c'.conn.incoming ≡ more = ground arith in
            omega (
              arith,
              ap length split,
              ap length split',
              ap length kept,
              length-append header rest,
              length-append sealed more,
              long_enough (get_be header) long,
            )
      ]
    ]
  ]
    where
      long_enough : (n : ℕ) → ltb n overhead ≡ false → 16 ≤ n
      long_enough n h = ground arith

  read_frame-shorter :
      (c : EncryptedConn) {c' : EncryptedConn}
      → read_frame p c ≡ framed c'
      → length c'.conn.incoming < length c.conn.incoming
  unfolding read_frame
  read_frame-shorter c {c'} e = elim (Bool-cases c.prefix_seen) [
    | inl seen ↦
        let body : read_body p c ≡ framed c' = ground arith in
        omega (arith, read_body-shorter c body)
    | inr new ↦ elim (read_full_cases 16 c.conn) [
      | inr q ↦ absurd (ground arith)
      | inl (prefix, rest, len, split, q) ↦
          let c1 : EncryptedConn = record c {
            conn = left rest c.conn;
            read_prefix = prefix;
            prefix_seen = true;
          } in
          let body : read_body p c1 ≡ framed c' = ground arith in
          omega (arith, read_body-shorter c1 body, ap length split, length-append prefix rest)
    ]
  ]

  read_loop-ne-stuck :
      (fuel n : ℕ) (c : EncryptedConn)
      → length c.conn.incoming + 1 < fuel
      → read_loop p fuel n c ≢ Got.stuck
  unfolding read_loop
  read_loop-ne-stuck zero n c h e = absurd (omega arith)
  read_loop-ne-stuck (suc fuel) n c h e = elim (List-cases c.plain) [
    | inr (b, t, q) ↦ unfold take_plain in ground arith
    | inl q ↦ elim (Framed-cases (read_frame p c)) [
      | inr (x, c', r) ↦ ground arith
      | inl (c', r) ↦
          read_loop-ne-stuck fuel n c' (omega (arith, read_frame-shorter c r)) (ground arith)
    ]
  ]

  -- The loop of Read ends: the fuel, two rounds more than there are bytes to read, is enough for
  -- any buffer and any connection.
  pub read-ne-stuck : (n : ℕ) (c : EncryptedConn) → read p n c ≢ Got.stuck
  unfolding read
  read-ne-stuck n c e =
      ground (arith, read_loop-ne-stuck (suc (suc (length c.conn.incoming))) n c (omega arith))
