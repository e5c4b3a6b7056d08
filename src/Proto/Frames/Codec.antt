-- ===== src/Proto/Frames/Codec.antt =====
-- internal/proto/frame_conn.go: one frame, at both ends.
use mathlib.Core.List.{append_assoc}
use ggrok.Prelude.{
  ℕ, suc, ◌+◌, ◌≤◌, ◌≡◌, ◌≢◌, inl, inr, List, ◌++◌, ◌∙◌, refl, arith, length, true, Bool-cases,
}
use ggrok.Prelude.Bytes.{put_be, get_be-put_be, length-put_be}
use ggrok.Proto.Io.{Conn, read_full-enough, write_full_cases, left, sent}
use ggrok.Proto.Crypto.{Primitives, Lawful}
use ggrok.Proto.Frames.{
  EncryptedConn, framed, nonce, max_uint64, max_frame_plaintext, frame_bytes, write_frame,
  read_body, read_frame,
}

-- A writer and the reader at the other end, between two frames.
pub record Matched (w r : EncryptedConn) : Type 0 where
  pub key : r.read_key ≡ w.write_key
  pub seq : r.read_seq ≡ w.write_seq
  pub seen : r.prefix_seen ≡ w.prefix_sent
  pub prefix : r.prefix_seen ≡ true → r.read_prefix ≡ w.write_prefix
  pub length_prefix : length w.write_prefix ≡ 16

-- The reader behind a frame with the given text.
abbrev pub after_frame : EncryptedConn → List ℕ → List ℕ → EncryptedConn → EncryptedConn
after_frame w chunk rest r = record r {
  conn = left rest r.conn;
  read_seq = suc w.write_seq;
  read_prefix = w.write_prefix;
  prefix_seen = true;
  plain = chunk;
}

module _ (p : Primitives) where
  -- What a frame that is written sends, and what it leaves.
  pub write_frame-framed :
      (w : EncryptedConn) (chunk : List ℕ) {w' : EncryptedConn}
      → write_frame p w chunk ≡ framed w'
      → (w.write_seq ≢ max_uint64)
        × (w' ≡ record w {
          conn = sent (frame_bytes p w chunk) w.conn;
          write_seq = suc w.write_seq;
          prefix_sent = true;
        })
  unfolding write_frame
  write_frame-framed w chunk {w'} e = elim (write_full_cases (frame_bytes p w chunk) w.conn) [
    | inl (_, q) ↦ (ground arith, ground arith)
    | inr (_, q) ↦ absurd (ground arith)
  ]

  module _ (laws : Lawful p) where
    read_body-sealed :
        (chunk rest : List ℕ) (seq : ℕ) (prefix key : List ℕ) (r : EncryptedConn)
        → length chunk ≤ max_frame_plaintext
        → r.read_key ≡ key
        → r.read_prefix ≡ prefix
        → r.read_seq ≡ seq
        → r.conn.incoming
          ≡ (put_be 2 (length (p.seal key (nonce prefix seq) chunk))
              ++ p.seal key (nonce prefix seq) chunk)
            ++ rest
        → read_body p r
          ≡ framed (record r { conn = left rest r.conn; read_seq = suc seq; plain = chunk })
    unfolding read_body
    read_body-sealed chunk rest seq prefix key r fits hk hp hs e =
        let sealed : List ℕ = p.seal key (nonce prefix seq) chunk in
        let size : length sealed ≡ length chunk + 16 =
          laws.length-seal key (nonce prefix seq) chunk in
        let split : r.conn.incoming ≡ put_be 2 (length sealed) ++ (sealed ++ rest) =
          e ∙ append_assoc (put_be 2 (length sealed)) sealed rest in
        ground (
          arith,
          read_full-enough 2 (put_be 2 (length sealed)) (sealed ++ rest) r.conn split
              (length-put_be 2 (length sealed)),
          get_be-put_be 2 (length sealed) (omega arith),
          read_full-enough (length sealed) sealed rest (left (sealed ++ rest) r.conn) refl refl,
          size,
          laws.unseal-seal key (nonce prefix seq) chunk,
        )

    pub read_frame-frame_bytes :
        (w r : EncryptedConn) (chunk rest : List ℕ)
        → Matched w r
        → w.write_seq ≢ max_uint64
        → length chunk ≤ max_frame_plaintext
        → r.conn.incoming ≡ frame_bytes p w chunk ++ rest
        → read_frame p r ≡ framed (after_frame w chunk rest r)
    unfolding read_frame frame_bytes
    read_frame-frame_bytes w r chunk rest m room fits e = elim (Bool-cases w.prefix_sent) [
      | inl old ↦ ground (
        arith,
        read_body-sealed chunk rest w.write_seq w.write_prefix w.write_key r fits m.key
            (m.prefix (m.seen ∙ old)) m.seq (ground arith),
      )
      | inr new ↦
          let sealed : List ℕ = p.seal w.write_key (nonce w.write_prefix w.write_seq) chunk in
          let frame : List ℕ = put_be 2 (length sealed) ++ sealed in
          let bytes : r.conn.incoming ≡ w.write_prefix ++ (frame ++ rest) =
            (rw new at e) ∙ append_assoc w.write_prefix frame rest in
          let conn : Conn = left (frame ++ rest) r.conn in
          let r' : EncryptedConn = record r {
            conn = conn;
            read_prefix = w.write_prefix;
            prefix_seen = true;
          } in
          ground (
            arith,
            m.seen,
            new,
            m.seq,
            read_full-enough 16 w.write_prefix (frame ++ rest) r.conn bytes m.length_prefix,
            read_body-sealed chunk rest w.write_seq w.write_prefix w.write_key r' fits m.key refl
                m.seq refl,
          )
    ]
