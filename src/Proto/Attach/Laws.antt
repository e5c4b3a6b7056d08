-- ===== src/Proto/Attach/Laws.antt =====
-- internal/proto/attach.go: lemmas on writing and reading an Attach.
use mathlib.Core.List.{append_assoc}
use ggrok.Prelude.{
  ℕ, ◌<◌, ◌≡◌, inl, inr, List, [], ◌∷◌, ◌++◌, ap, sym, ◌∙◌, refl, arith, length, length-append,
  take, drop, take_all, take-append_eq, drop-append_eq, take-append-drop, length-take, length-drop,
  drop-drop, ◌^◌, All, All-take, All-drop, All-append_left,
}
use ggrok.Prelude.Bytes.{
  IsByte, IsBlock, put_be, get_be, length-put_be, get_be-put_be, put_be-get_be, get_be-lt,
}
use ggrok.Proto.Hello.{session_id_size}
use ggrok.Proto.ConnKind.{conn_data, valid_conn_kind, read_conn_kind, read_conn_kind-byte}
use ggrok.Proto.Io.{
  Conn, done, read_full, read_full-enough, write_full_cases, read_full_cases, left,
}
use ggrok.Proto.Attach.{
  Attach, IsValid, attach_size, encode_attach, decode_attach, read_attach, write_attach_with,
  write_data_attach,
}

length-encode_attach : (a : Attach) → IsValid a → length (encode_attach a) ≡ attach_size
unfolding encode_attach
length-encode_attach a v = omega (
  arith,
  length-append a.session_id (put_be 8 a.request_id ++ put_be 2 a.port),
  length-append (put_be 8 a.request_id) (put_be 2 a.port),
  length-put_be 8 a.request_id,
  length-put_be 2 a.port,
  v.id_block.0,
)

decode_attach-encode_attach : (a : Attach) → IsValid a → decode_attach (encode_attach a) ≡ a
unfolding decode_attach encode_attach
decode_attach-encode_attach a v =
    let id = a.session_id in
    let req = put_be 8 a.request_id in
    let port = put_be 2 a.port in
    let port_len = length-put_be 2 a.port in
    let head : length (id ++ req) ≡ 24 =
      omega (arith, length-append id req, length-put_be 8 a.request_id, v.id_block.0) in
    ground (
      arith,
      take-append_eq 16 id (req ++ port) v.id_block.0,
      drop-append_eq 16 id (req ++ port) v.id_block.0,
      take-append_eq 8 req port (length-put_be 8 a.request_id),
      append_assoc id req port,
      drop-append_eq 24 (id ++ req) port head,
      take_all port,
      port_len,
      get_be-put_be 8 a.request_id v.request_u64,
      get_be-put_be 2 a.port v.port_u16,
    )

read_attach-encode_attach :
    (a : Attach) (rest : List ℕ) (c : Conn)
    → IsValid a
    → c.incoming ≡ encode_attach a ++ rest
    → read_attach c ≡ done a (left rest c)
unfolding read_attach
read_attach-encode_attach a rest c v e = ground (
  arith,
  read_full-enough attach_size (encode_attach a) rest c e (length-encode_attach a v),
  decode_attach-encode_attach a v,
)

attach-of_block : (buf : List ℕ) → IsBlock attach_size buf → encode_attach (decode_attach buf) ≡ buf
unfolding decode_attach encode_attach
attach-of_block [] b = absurd (omega arith)
attach-of_block (k ∷ buf) b =
    let tail = drop 16 buf in
    let end = drop 24 buf in
    let tail_len : length tail ≡ 10 = omega (arith, length-drop 16 buf) in
    let end_len : length end ≡ 2 = omega (arith, length-drop 24 buf) in
    let req : put_be 8 (get_be (take 8 tail)) ≡ take 8 tail =
      put_be-get_be 8 (take 8 tail)
        (length-take 8 tail (omega arith), All-take IsByte 8 tail (All-drop IsByte 16 buf b.1.1)) in
    let whole : take 2 end ≡ end = rw (← end_len) (take_all end) in
    let port : put_be 2 (get_be (take 2 end)) ≡ end =
      rw whole (put_be-get_be 2 end (end_len, All-drop IsByte 24 buf b.1.1)) in
    rw (req, port)
      (ap (λ (t : List ℕ). k ∷ t)
        (ap (λ (t : List ℕ). take 16 buf ++ (take 8 tail ++ t)) (sym (drop-drop 8 16 buf))
          ∙ ap (λ (t : List ℕ). take 16 buf ++ t) (take-append-drop 8 tail)
          ∙ take-append-drop 16 buf))

decode_attach_ranges :
    (buf : List ℕ)
    → IsBlock attach_size buf
    → ((decode_attach buf).port < 65536)
      × ((decode_attach buf).request_id < 256 ^ 8)
      × IsBlock session_id_size (decode_attach buf).session_id
unfolding decode_attach
decode_attach_ranges [] b = absurd (omega arith)
decode_attach_ranges (k ∷ buf) b = (
  get_be-lt 2 (take 2 (drop 24 buf)) (
    length-take 2 _ (omega (arith, length-drop 24 buf)),
    All-take IsByte 2 _ (All-drop IsByte 24 buf b.1.1),
  ),
  get_be-lt 8 (take 8 (drop 16 buf)) (
    length-take 8 _ (omega (arith, length-drop 16 buf)),
    All-take IsByte 8 _ (All-drop IsByte 16 buf b.1.1),
  ),
  (length-take 16 buf (omega arith), All-take IsByte 16 buf b.1.1),
)

read_attach-done_block :
    (a : Attach) (c : Conn) (bs rest : List ℕ) {c' : Conn}
    → IsBlock attach_size bs
    → read_full attach_size c ≡ done bs (left rest c)
    → read_attach c ≡ done a c'
    → IsValid (decode_attach bs) × (a ≡ decode_attach bs) × (c'.incoming ≡ rest)
unfolding read_attach
read_attach-done_block a c bs rest {c'} b q e =
    let r = decode_attach_ranges bs b in
    (
      record { kind_ok = ground arith; id_block = r.2; request_u64 = r.1; port_u16 = r.0 },
      ground arith,
      ground arith,
    )

-- What `read_attach` accepts is the encoding of a valid Attach, and no other bytes.
read_attach-done :
    (a : Attach) (c : Conn) {c' : Conn}
    → All IsByte c.incoming
    → read_attach c ≡ done a c'
    → IsValid a × (c.incoming ≡ encode_attach a ++ c'.incoming)
read_attach-done a c {c'} bytes e = elim (read_full_cases attach_size c) [
  | inl (bs, rest, len, split, q) ↦
      let b : IsBlock attach_size bs = (len, All-append_left IsByte bs rest (rw split at bytes)) in
      let (v, eq, kept) = read_attach-done_block a c bs rest b q e in
      rw (eq, kept, attach-of_block bs b) (v, split)
  | inr q ↦ unfold read_attach in cc
]

-- What WriteDataAttach writes of a valid Attach is read back by ReadConnKind and then ReadAttach,
-- and what follows is left.
pub write_data_attach-read :
    (a : Attach) (rest : List ℕ) (w r : Conn) {w' : Conn}
    → IsValid a
    → w.outgoing ≡ []
    → write_data_attach a w ≡ done tt w'
    → r.incoming ≡ w'.outgoing ++ rest
    → (read_conn_kind r ≡ done conn_data (left (encode_attach a ++ rest) r))
      × (read_attach (left (encode_attach a ++ rest) r) ≡ done a (left rest r))
unfolding write_data_attach write_attach_with valid_conn_kind
write_data_attach-read a rest w r {w'} v clean e got =
    elim (write_full_cases (conn_data ∷ encode_attach a) w) [
      | inl (_, q) ↦
          let bytes : r.incoming ≡ conn_data ∷ (encode_attach a ++ rest) = ground arith in
          (
            read_conn_kind-byte conn_data (encode_attach a ++ rest) r bytes,
            read_attach-encode_attach a rest (left (encode_attach a ++ rest) r) v refl,
          )
      | inr (_, q) ↦ ground arith
    ]
