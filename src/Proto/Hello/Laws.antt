-- ===== src/Proto/Hello/Laws.antt =====
-- internal/proto/hello.go: Hellos that are written and read.
use ggrok.Prelude.{
  ℕ, ◌<◌, ◌≡◌, List, [], ◌∷◌, ◌++◌, arith, length, length-append, take, take-append-drop,
  length-take, All-take, All-drop, All-append_left, length-drop, take-append_eq, ap, drop-append_eq,
  inl, inr, All,
}
use ggrok.Prelude.Bytes.{
  IsByte, IsBlock, put_be, length-put_be, get_be-put_be, put_be-get_be, get_be-lt,
}
use ggrok.Proto.Io.{Conn, done, read_full, read_full-enough, read_full_cases}
use ggrok.Proto.Hello.{
  Hello, IsValid, session_id_size, hello_size, encode_hello, decode_hello, read_hello,
}

length-encode_hello : (h : Hello) → IsValid h → length (encode_hello h) ≡ hello_size
unfolding encode_hello
length-encode_hello h v =
    omega
      (arith, length-append (put_be 2 h.ports) h.session_id, length-put_be 2 h.ports, v.id_block.0)

pub decode_hello-encode_hello : (h : Hello) → IsValid h → decode_hello (encode_hello h) ≡ h
unfolding decode_hello encode_hello
decode_hello-encode_hello h v =
    let len = length-put_be 2 h.ports in
    ground (
      arith,
      take-append_eq 2 (put_be 2 h.ports) h.session_id len,
      drop-append_eq 2 (put_be 2 h.ports) h.session_id len,
      get_be-put_be 2 h.ports v.ports_u16,
    )

-- ReadHello gives back a valid Hello from its encoding and leaves what follows.
read_hello-encode_hello :
    (h : Hello) (rest : List ℕ) (c : Conn)
    → IsValid h
    → c.incoming ≡ encode_hello h ++ rest
    → read_hello c ≡ done h (record c { incoming = rest })
unfolding read_hello
read_hello-encode_hello h rest c v e = ground (
  arith,
  read_full-enough hello_size (encode_hello h) rest c e (length-encode_hello h v),
  decode_hello-encode_hello h v,
)

hello-of_block : (buf : List ℕ) → IsBlock hello_size buf → encode_hello (decode_hello buf) ≡ buf
unfolding decode_hello encode_hello
hello-of_block (r ∷ m ∷ buf) b =
    rw
      (put_be-get_be 2 (take 2 buf)
        (length-take 2 buf (omega arith), All-take IsByte 2 buf b.1.1.1))
      (ap (λ (t : List ℕ). r ∷ m ∷ t) (take-append-drop 2 buf))
hello-of_block [] b = absurd (omega arith)
hello-of_block (r ∷ []) b = absurd (omega arith)

decode_hello_ranges :
    (buf : List ℕ)
    → IsBlock hello_size buf
    → ((decode_hello buf).ports < 65536) × IsBlock session_id_size (decode_hello buf).session_id
unfolding decode_hello
decode_hello_ranges (r ∷ m ∷ buf) b = (
  get_be-lt 2 (take 2 buf) (length-take 2 buf (omega arith), All-take IsByte 2 buf b.1.1.1),
  (omega (arith, length-drop 2 buf), All-drop IsByte 2 buf b.1.1.1),
)
decode_hello_ranges [] b = absurd (omega arith)
decode_hello_ranges (r ∷ []) b = absurd (omega arith)

read_hello-done_block :
    (h : Hello) (c : Conn) (bs rest : List ℕ) {c' : Conn}
    → IsBlock hello_size bs
    → read_full hello_size c ≡ done bs (record c { incoming = rest })
    → read_hello c ≡ done h c'
    → IsValid (decode_hello bs) × (h ≡ decode_hello bs) × (c'.incoming ≡ rest)
unfolding read_hello
read_hello-done_block h c bs rest {c'} b q e =
    let r = decode_hello_ranges bs b in
    (
      record {
        role_ok = ground arith;
        mode_ok = ground arith;
        ports_pos = ground arith;
        ports_u16 = r.0;
        id_block = r.1;
      },
      ground arith,
      ground arith,
    )

-- From a connection of bytes, what ReadHello accepts is a valid Hello, and it took exactly the
-- bytes of its encoding.
pub read_hello-done :
    (h : Hello) (c : Conn) {c' : Conn}
    → All IsByte c.incoming
    → read_hello c ≡ done h c'
    → IsValid h × (c.incoming ≡ encode_hello h ++ c'.incoming)
read_hello-done h c {c'} bytes e = elim (read_full_cases hello_size c) [
  | inl (bs, rest, len, split, q) ↦
      let b : IsBlock hello_size bs = (len, All-append_left IsByte bs rest (rw split at bytes)) in
      let (v, eq, left) = read_hello-done_block h c bs rest b q e in
      rw (eq, left, hello-of_block bs b) (v, split)
  | inr q ↦ unfold read_hello in cc
]
