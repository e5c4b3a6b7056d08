-- ===== src/Proto/Hello.antt =====
-- internal/proto/hello.go: the Hello that opens a control connection, and relay's answer to it.
-- The numbers of a Go type such as `Role uint8` are kept, since a peer may send any of them.
pub mod Laws
use ggrok.Prelude.{
  ℕ, ◌<◌, ◌≡◌, ◌≢◌, ◌⊎◌, Bool, true, false, not, ◌&&◌, ◌||◌, List, [], ◌∷◌, ◌++◌, Option, none,
  some, ltb, ◌==◌, if◌then◌else◌, take, drop, get_or,
}
use ggrok.Prelude.Bytes.{IsBlock, put_be, get_be}
use ggrok.Proto.Error.{
  Error, invalid_role, invalid_mode, no_ports, no_such_session, mode_mismatch, publisher_exists,
  ports_mismatch, denied, unknown_status,
}
use ggrok.Proto.Io.{Io, ◌>>=◌, ◌>>◌, return, fail, check, read_full, write_full}

-- `SessionIDSize` of crypto.go.
abbrev pub session_id_size : ℕ
session_id_size = 16

abbrev pub role_publish : ℕ
role_publish = 1

abbrev pub role_subscribe : ℕ
role_subscribe = 2

abbrev pub mode_tcp : ℕ
mode_tcp = 1

abbrev pub hello_size : ℕ
hello_size = 20

pub record Hello : Type 0 where
  pub role : ℕ
  pub mode : ℕ
  pub session_id : List ℕ
  pub ports : ℕ

abbrev pub role_known : ℕ → Bool
role_known r = r == role_publish || r == role_subscribe

unfoldable pub encode_hello : Hello → List ℕ
encode_hello h = h.role ∷ h.mode ∷ (put_be 2 h.ports ++ h.session_id)

unfoldable pub write_hello : Hello → Io (Unit {0})
write_hello h = do
  check (role_known h.role) (invalid_role h.role)
  check (h.mode == mode_tcp) (invalid_mode h.mode)
  check (not (h.ports == 0)) no_ports
  write_full (encode_hello h)

unfoldable pub decode_hello : List ℕ → Hello
decode_hello buf = record {
  role = get_or buf 0 0;
  mode = get_or buf 1 0;
  session_id = drop 4 buf;
  ports = get_be (take 2 (drop 2 buf));
}

unfoldable pub read_hello : Io Hello
read_hello = do
  buf ← read_full hello_size
  let h = decode_hello buf
  check (role_known h.role) (invalid_role h.role)
  check (h.mode == mode_tcp) (invalid_mode h.mode)
  check (not (h.ports == 0)) no_ports
  return h

-- `AckStatus`: its six values, and any other byte.
abbrev pub ack_ok : ℕ
ack_ok = 0

abbrev pub ack_no_such_session : ℕ
ack_no_such_session = 1

abbrev pub ack_mode_mismatch : ℕ
ack_mode_mismatch = 2

abbrev pub ack_publisher_exists : ℕ
ack_publisher_exists = 3

abbrev pub ack_ports_mismatch : ℕ
ack_ports_mismatch = 4

abbrev pub ack_denied : ℕ
ack_denied = 5

-- `AckStatus.Err`.
unfoldable pub status_error : ℕ → Option Error
status_error s =
    if s == ack_ok
    then none
    else if s == ack_no_such_session
    then some no_such_session
    else if s == ack_mode_mismatch
    then some mode_mismatch
    else if s == ack_publisher_exists
    then some publisher_exists
    else if s == ack_ports_mismatch
    then some ports_mismatch
    else if s == ack_denied
    then some denied
    else some (unknown_status s)

unfoldable pub write_ack : ℕ → Io (Unit {0})
write_ack status = write_full (status ∷ [])

unfoldable pub read_ack : Io ℕ
read_ack = do buf ← read_full 1; return (get_or buf 0 0)

-- What WriteHello accepts, of a Hello whose fields have their Go types' ranges.
pub record IsValid (h : Hello) : Type 0 where
  pub role_ok : (h.role ≡ role_publish) ⊎ (h.role ≡ role_subscribe)
  pub mode_ok : h.mode ≡ mode_tcp
  pub ports_pos : 0 < h.ports
  pub ports_u16 : h.ports < 65536
  pub id_block : IsBlock session_id_size h.session_id
