-- ===== src/Proto/Attach.antt =====
-- internal/proto/attach.go: the Attach that opens a data connection.
pub mod Laws
use ggrok.Prelude.{
  ℕ, ◌^◌, ◌<◌, ◌≡◌, ◌⊎◌, Bool, true, false, ◌||◌, List, [], ◌∷◌, ◌++◌, ◌==◌, if◌then◌else◌, get_or,
  take, drop,
}
use ggrok.Prelude.Bytes.{IsBlock, put_be, get_be}
use ggrok.Proto.Error.{Error, invalid_kind}
use ggrok.Proto.ConnKind.{conn_data}
use ggrok.Proto.Hello.{session_id_size}
use ggrok.Proto.Io.{Io, ◌>>=◌, ◌>>◌, return, check, read_full, write_full}

abbrev pub attach_subscriber : ℕ
attach_subscriber = 1

abbrev pub attach_publisher : ℕ
attach_publisher = 2

abbrev pub attach_size : ℕ
attach_size = 27

pub record Attach : Type 0 where
  pub kind : ℕ
  pub session_id : List ℕ
  pub request_id : ℕ
  pub port : ℕ

abbrev pub attach_known : ℕ → Bool
attach_known k = k == attach_subscriber || k == attach_publisher

-- The fields in the order of the offsets 0, 1, `attachRequestOffset` and `attachPortOffset`.
unfoldable pub encode_attach : Attach → List ℕ
encode_attach a = a.kind ∷ (a.session_id ++ (put_be 8 a.request_id ++ put_be 2 a.port))

unfoldable pub write_attach_with : Attach → Bool → Io (Unit {0})
write_attach_with a with_kind = do
  check (attach_known a.kind) (invalid_kind a.kind)
  write_full (if with_kind then conn_data ∷ encode_attach a else encode_attach a)

unfoldable pub write_attach : Attach → Io (Unit {0})
write_attach a = write_attach_with a false

unfoldable pub write_data_attach : Attach → Io (Unit {0})
write_data_attach a = write_attach_with a true

unfoldable pub decode_attach : List ℕ → Attach
decode_attach buf = record {
  kind = get_or buf 0 0;
  session_id = take 16 (drop 1 buf);
  request_id = get_be (take 8 (drop 17 buf));
  port = get_be (take 2 (drop 25 buf));
}

unfoldable pub read_attach : Io Attach
read_attach = do
  buf ← read_full attach_size
  let a = decode_attach buf
  check (attach_known a.kind) (invalid_kind a.kind)
  return a

-- What WriteAttach accepts, of an Attach whose fields have their Go types' ranges.
pub record IsValid (a : Attach) : Type 0 where
  pub kind_ok : (a.kind ≡ attach_subscriber) ⊎ (a.kind ≡ attach_publisher)
  pub id_block : IsBlock session_id_size a.session_id
  pub request_u64 : a.request_id < 256 ^ 8
  pub port_u16 : a.port < 65536
