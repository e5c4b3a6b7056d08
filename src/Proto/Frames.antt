-- ===== src/Proto/Frames.antt =====
-- internal/proto/frame_conn.go: EncryptedConn, the sealed frames of a data connection. `writeBuf` and
-- `readBuf` are storage that is reused from call to call and holds no state; each direction has a
-- lock of its own, so a `Write` or a `Read` is one step.
pub mod Nonce
pub mod Codec
pub mod Ends
pub mod Sticky
pub mod RoundTrip
use ggrok.Prelude.{
  ℕ, zero, suc, ◌+◌, ◌-◌, ◌^◌, ◌≤◌, ◌<◌, ◌≡◌, List, [], ◌∷◌, ◌++◌, Option, none, some, length, take,
  drop, ltb, Bool, true, false, if◌then◌else◌, ◌==◌, Result, ok, err, ◌⊎◌, inl, inr, refl,
}
use ggrok.Prelude.Bytes.{put_be, get_be}
use ggrok.Proto.Error.{
  Error, counter_exhausted, short_frame, bad_frame, invalid_role, random_failed,
}
use ggrok.Proto.Hello.{role_subscribe, role_known}
use ggrok.Proto.Io.{Conn, Outcome, done, failed, read_full, write_full}
use ggrok.Proto.Crypto.{Primitives, derive_data_keys}

abbrev pub frame_len_size : ℕ
frame_len_size = 2

abbrev pub nonce_prefix_size : ℕ
nonce_prefix_size = 16

-- `chacha20poly1305.Overhead`.
abbrev pub overhead : ℕ
overhead = 16

abbrev pub max_frame_plaintext : ℕ
max_frame_plaintext = 65535 - overhead

-- `math.MaxUint64`.
abbrev pub max_uint64 : ℕ
max_uint64 = 2 ^ 64 - 1

pub record EncryptedConn : Type 0 where
  pub conn : Conn
  pub write_error : Option Error
  pub write_key : List ℕ
  pub write_seq : ℕ
  pub write_prefix : List ℕ
  pub prefix_sent : Bool
  pub read_error : Option Error
  pub read_key : List ℕ
  pub read_seq : ℕ
  pub read_prefix : List ℕ
  pub prefix_seen : Bool
  pub plain : List ℕ

unfoldable pub nonce : List ℕ → ℕ → List ℕ
nonce prefix seq = prefix ++ put_be 8 seq

-- How a `Write` ends. `stuck` is no Go value: the loop ran out of fuel.
pub data Written : Type 0 where
  wrote : ℕ → EncryptedConn → Written
  write_failed : ℕ → Error → EncryptedConn → Written
  stuck : Written

-- How a `Read` ends.
pub data Got : Type 0 where
  got : List ℕ → EncryptedConn → Got
  read_failed : Error → EncryptedConn → Got
  stuck : Got

-- How `readFrame` ends.
pub data Framed : Type 0 where
  framed : EncryptedConn → Framed
  frame_failed : Error → EncryptedConn → Framed

pub Framed-cases :
    (f : Framed)
    → ((c : EncryptedConn) × (f ≡ framed c))
      ⊎ ((e : Error) × (c : EncryptedConn) × (f ≡ frame_failed e c))
Framed-cases (framed c) = inl (c, refl)
Framed-cases (frame_failed e c) = inr (e, c, refl)

module _ (p : Primitives) where
  -- `NewEncryptedConn`; what `rand.Read` gives is an argument.
  unfoldable pub new_encrypted_conn :
      Conn → List ℕ → ℕ → Option (List ℕ) → Result Error EncryptedConn
  new_encrypted_conn conn secret role random =
      let (pub_to_sub, sub_to_pub) = derive_data_keys p secret in
      if role_known role
      then elim random [
        | none ↦ err random_failed
        | some prefix ↦ ok (record {
          conn = conn;
          write_error = none;
          write_key = if role == role_subscribe then sub_to_pub else pub_to_sub;
          write_seq = 0;
          write_prefix = prefix;
          prefix_sent = false;
          read_error = none;
          read_key = if role == role_subscribe then pub_to_sub else sub_to_pub;
          read_seq = 0;
          read_prefix = [];
          prefix_seen = false;
          plain = [];
        })
      ]
      else err (invalid_role role)

  -- The bytes of one frame: the nonce prefix before the first, the length, the sealed chunk.
  unfoldable pub frame_bytes : EncryptedConn → List ℕ → List ℕ
  frame_bytes c chunk =
      let sealed = p.seal c.write_key (nonce c.write_prefix c.write_seq) chunk in
      (if c.prefix_sent then [] else c.write_prefix) ++ (put_be 2 (length sealed) ++ sealed)

  -- One round of the loop of `Write`.
  unfoldable pub write_frame : EncryptedConn → List ℕ → Framed
  write_frame c chunk =
      if c.write_seq == max_uint64
      then frame_failed counter_exhausted (record c { write_error = some counter_exhausted })
      else elim (write_full (frame_bytes c chunk) c.conn) [
        | done _ conn ↦
            framed (record c { conn = conn; write_seq = suc c.write_seq; prefix_sent = true })
        | failed e conn ↦
            frame_failed e
              (record c { conn = conn; write_seq = suc c.write_seq; write_error = some e })
      ]

  -- `rest` is `p[written:]`.
  unfoldable pub write_loop : ℕ → List ℕ → ℕ → EncryptedConn → Written
  write_loop zero rest written c = stuck
  write_loop (suc fuel) rest written c =
      let chunk = take max_frame_plaintext rest in
      elim (write_frame c chunk) [
        | frame_failed e c' ↦ write_failed written e c'
        | framed c' ↦ elim (drop max_frame_plaintext rest) [
          | [] ↦ wrote (written + length chunk) c'
          | b ∷ more ↦ write_loop fuel (b ∷ more) (written + length chunk) c'
        ]
      ]

  -- Each round takes a byte at least, so `length bytes` rounds are enough.
  unfoldable pub write : List ℕ → EncryptedConn → Written
  write bytes c = elim c.write_error [
    | some e ↦ write_failed 0 e c
    | none ↦ elim bytes [
      | [] ↦ wrote 0 c
      | b ∷ more ↦ write_loop (length (b ∷ more)) (b ∷ more) 0 c
    ]
  ]

  -- The part of `readFrame` behind the nonce prefix.
  unfoldable pub read_body : EncryptedConn → Framed
  read_body c = elim (read_full frame_len_size c.conn) [
    | failed e conn ↦ frame_failed e (record c { conn = conn })
    | done header conn ↦
        let size = get_be header in
        let body = read_full size conn in
        if ltb size overhead
        then frame_failed (short_frame size) (record c { conn = conn })
        else elim body [
          | failed e conn' ↦ frame_failed e (record c { conn = conn' })
          | done sealed conn' ↦ elim (p.unseal c.read_key (nonce c.read_prefix c.read_seq) sealed) [
            | none ↦ frame_failed (bad_frame c.read_seq) (record c { conn = conn' })
            | some plain ↦
                framed (record c { conn = conn'; read_seq = suc c.read_seq; plain = plain })
          ]
        ]
  ]

  unfoldable pub read_frame : EncryptedConn → Framed
  read_frame c =
      if c.read_seq == max_uint64
      then frame_failed counter_exhausted c
      else if c.prefix_seen
      then read_body c
      else elim (read_full nonce_prefix_size c.conn) [
        | failed e conn ↦ frame_failed e (record c { conn = conn })
        | done prefix conn ↦
            read_body (record c { conn = conn; read_prefix = prefix; prefix_seen = true })
      ]

  -- The copy of `Read` into a buffer of `n` bytes.
  unfoldable pub take_plain : ℕ → EncryptedConn → Got
  take_plain n c = got (take n c.plain) (record c { plain = drop n c.plain })

  -- The loop `for len(c.plain) == 0`, then the copy.
  unfoldable pub read_loop : ℕ → ℕ → EncryptedConn → Got
  read_loop zero n c = stuck
  read_loop (suc fuel) n c = elim c.plain [
    | b ∷ more ↦ take_plain n c
    | [] ↦ elim (read_frame c) [
      | frame_failed e c' ↦ read_failed e (record c' { read_error = some e })
      | framed c' ↦ read_loop fuel n c'
    ]
  ]

  -- A frame takes a byte of the connection at least, so one round more than there are bytes is
  -- enough.
  unfoldable pub read : ℕ → EncryptedConn → Got
  read n c = if n == 0 then got [] c else elim c.read_error [
    | some e ↦ read_failed e c
    | none ↦ read_loop (suc (suc (length c.conn.incoming))) n c
  ]
