-- ===== src/Proto/Control/Laws.antt =====
-- internal/proto/control.go: lemmas on writing and reading control frames.
use ggrok.Prelude.{
  ℕ, ◌^◌, ◌≤◌, ◌<◌, ◌≡◌, inl, inr, List, [], ◌∷◌, ◌++◌, ap, ◌∙◌, refl, arith, length, length-append,
  take_all, take-append_eq, drop-append_eq, ok,
}
use mathlib.Core.List.{append_assoc}
use ggrok.Prelude.Bytes.{put_be, get_be, length-put_be, get_be-put_be}
use ggrok.Proto.Error.{payload_too_large}
use ggrok.Proto.Io.{Conn, done, failed, read_full-enough, write_full_cases, left}
use ggrok.Proto.Control.{
  encode_frame, control_header_size, max_control_payload, write_control_frame, read_control_frame,
  write_request_data, read_request_data, control_request_data,
}

-- A frame within the bound is read as it was written, and what follows it is left.
pub read_control_frame-encode_frame :
    (typ : ℕ) (payload rest : List ℕ) (c : Conn)
    → length payload ≤ max_control_payload
    → c.incoming ≡ encode_frame typ payload ++ rest
    → read_control_frame c ≡ done (typ, payload) (left rest c)
unfolding read_control_frame encode_frame
read_control_frame-encode_frame typ payload rest c h e =
    let len = length-put_be 4 (length payload) in
    let size : get_be (put_be 4 (length payload)) ≡ length payload =
      get_be-put_be 4 (length payload) (omega arith) in
    let split : c.incoming ≡ (typ ∷ put_be 4 (length payload)) ++ (payload ++ rest) =
      e ∙ ap (λ (t : List ℕ). typ ∷ t) (append_assoc (put_be 4 (length payload)) payload rest) in
    ground (
      arith,
      size,
      read_full-enough control_header_size (typ ∷ put_be 4 (length payload)) (payload ++ rest) c
          split (omega (arith, len)),
      read_full-enough (length payload) payload rest (left (payload ++ rest) c) refl refl,
    )

-- A control frame whose header announces more than the bound is refused, and nothing of its
-- payload is read.
pub read_control_frame-too_large :
    (typ size : ℕ) (rest : List ℕ) (c : Conn)
    → max_control_payload < size
    → size < 256 ^ 4
    → c.incoming ≡ (typ ∷ put_be 4 size) ++ rest
    → read_control_frame c ≡ failed (payload_too_large size) (left rest c)
unfolding read_control_frame
read_control_frame-too_large typ size rest c big u32 e = ground (
  arith,
  get_be-put_be 4 size u32,
  length-put_be 4 size,
  read_full-enough control_header_size (typ ∷ put_be 4 size) rest c e
      (omega (arith, length-put_be 4 size)),
)

write_control_frame-read :
    (typ : ℕ) (payload rest : List ℕ) (w r : Conn) {w' : Conn}
    → w.outgoing ≡ []
    → write_control_frame typ payload w ≡ done tt w'
    → r.incoming ≡ w'.outgoing ++ rest
    → read_control_frame r ≡ done (typ, payload) (left rest r)
unfolding write_control_frame
write_control_frame-read typ payload rest w r {w'} clean e got =
    elim (write_full_cases (encode_frame typ payload) w) [
      | inl (_, q) ↦
          read_control_frame-encode_frame typ payload rest r (ground arith) (ground arith)
      | inr (_, q) ↦ ground arith
    ]

-- The request for a data connection that relay writes, with a 64-bit id and a 16-bit port, is read
-- back by the publisher with the same id and port, and what follows is left.
pub write_request_data-read :
    (id port : ℕ) (rest : List ℕ) (w r : Conn) {w' : Conn}
    → id < 256 ^ 8
    → port < 65536
    → w.outgoing ≡ []
    → write_request_data id port w ≡ done tt w'
    → r.incoming ≡ w'.outgoing ++ rest
    → (payload : List ℕ) × (read_control_frame r
        ≡ done (control_request_data, payload) (left rest r))
      × (read_request_data payload ≡ ok (id, port))
unfolding write_request_data read_request_data
write_request_data-read id port rest w r u64 u16 clean e got =
    let len8 = length-put_be 8 id in
    let len2 = length-put_be 2 port in
    (
      put_be 8 id ++ put_be 2 port,
      write_control_frame-read control_request_data _ rest w r clean e got,
      ground (
        arith,
        length-append (put_be 8 id) (put_be 2 port),
        len8,
        len2,
        take-append_eq 8 (put_be 8 id) (put_be 2 port) len8,
        drop-append_eq 8 (put_be 8 id) (put_be 2 port) len8,
        take_all (put_be 2 port),
        get_be-put_be 8 id u64,
        get_be-put_be 2 port u16,
      ),
    )
