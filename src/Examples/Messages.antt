-- ===== src/Examples/Messages.antt =====
-- Messages that are written by one end and read by the other, and some that are refused.
use ggrok.Prelude.{
  inr, ℕ, ◌≡◌, ◌≢◌, refl, false, List, [], ◌∷◌, ◌++◌, All, Option, none, some, replicate, arith,
}
use ggrok.Prelude.Bytes.{put_be, get_be, IsByte}
use ggrok.Proto.Io.{Conn, done, write_full, read_full}
use ggrok.Proto.Hello.{decode_hello, read_hello}
use ggrok.Proto.Attach.{
  Attach, encode_attach, write_attach_with, write_data_attach, attach_publisher,
  IsValid as ValidAttach,
}
use ggrok.Proto.Control.{encode_frame, write_control_frame, write_request_data}
use ggrok.Proto.Admin.{admin_body, write_admin_body, write_admin_frame_with, write_admin_hello}
use ggrok.Examples.Toy.{wire, hello}

abbrev id_bytes : List ℕ
id_bytes = replicate 16 2

abbrev hello_bytes : List ℕ
hello_bytes = 1 ∷ 1 ∷ 0 ∷ 3 ∷ id_bytes

id_are_bytes : All IsByte id_bytes
id_are_bytes = ground arith

hello_reads : read_hello (wire (hello_bytes ++ 7 ∷ [])) ≡ done hello (wire (7 ∷ []))
unfolding read_hello read_full decode_hello get_be
hello_reads = refl

abbrev attach : Attach
attach = record { kind = attach_publisher; session_id = id_bytes; request_id = 258; port = 1 }

attach-ValidAttach : ValidAttach attach
attach-ValidAttach = record {
  kind_ok = inr refl;
  id_block = (refl, id_are_bytes);
  request_u64 = omega arith;
  port_u16 = omega arith;
}

abbrev attach_bytes : List ℕ
attach_bytes = 2 ∷ 2 ∷ (id_bytes ++ (0 ∷ 0 ∷ 0 ∷ 0 ∷ 0 ∷ 0 ∷ 1 ∷ 2 ∷ 0 ∷ 1 ∷ []))

abbrev attach_sent : Conn
attach_sent = record {
  incoming = [];
  broken = false;
  outgoing = attach_bytes;
  room = 972;
  silent = false;
}

attach_writes : write_data_attach attach (wire []) ≡ done tt attach_sent
unfolding write_data_attach write_attach_with encode_attach put_be write_full
attach_writes = refl

abbrev too_large : List ℕ
too_large = 3 ∷ 0 ∷ 0 ∷ 4 ∷ 1 ∷ 9 ∷ []

too_large_header : too_large ≡ (3 ∷ put_be 4 1025) ++ 9 ∷ []
unfolding put_be
too_large_header = refl

abbrev request_bytes : List ℕ
request_bytes = 3 ∷ 0 ∷ 0 ∷ 0 ∷ 10 ∷ 0 ∷ 0 ∷ 0 ∷ 0 ∷ 0 ∷ 0 ∷ 1 ∷ 2 ∷ 0 ∷ 5 ∷ []

abbrev request_sent : Conn
request_sent = record {
  incoming = [];
  broken = false;
  outgoing = request_bytes;
  room = 985;
  silent = false;
}

request_writes : write_request_data 258 5 (wire []) ≡ done tt request_sent
unfolding write_request_data write_control_frame encode_frame put_be write_full
request_writes = refl

abbrev marshal : ℕ → Option (List ℕ)
marshal n = some (n ∷ [])

abbrev unmarshal : List ℕ → Option ℕ
unmarshal [] = none
unmarshal (n ∷ more) = some n

marshal_law : (q : ℕ) (b : List ℕ) → marshal q ≡ some b → (unmarshal b ≡ some q) × (b ≢ [])
marshal_law q [] e = absurd (ground arith)
marshal_law q (x ∷ b) e = (ground arith, λ none_left. absurd (ground arith))

abbrev admin_bytes : List ℕ
admin_bytes = 3 ∷ 1 ∷ 0 ∷ 0 ∷ 0 ∷ 1 ∷ 42 ∷ []

abbrev admin_sent : Conn
admin_sent = record {
  incoming = [];
  broken = false;
  outgoing = admin_bytes;
  room = 993;
  silent = false;
}

admin_writes : write_admin_hello marshal 42 (wire []) ≡ done tt admin_sent
unfolding write_admin_hello write_admin_frame_with write_admin_body admin_body encode_frame put_be
    write_full
admin_writes = refl
