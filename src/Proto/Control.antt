-- ===== src/Proto/Control.antt =====
-- internal/proto/control.go: the length-prefixed frames of a control connection.
pub mod Laws
use ggrok.Prelude.{
  ℕ, ◌≡◌, Bool, true, false, List, [], ◌∷◌, ◌++◌, leb, ◌==◌, if◌then◌else◌, get_or, take, drop,
  length, Result, ok, err,
}
use ggrok.Prelude.Bytes.{put_be, get_be}
use ggrok.Proto.Error.{Error, payload_too_large, wrong_size}
use ggrok.Proto.Io.{Io, ◌>>=◌, ◌>>◌, return, check, read_full, write_full}

abbrev pub control_ping : ℕ
control_ping = 1

abbrev pub control_pong : ℕ
control_pong = 2

abbrev pub control_request_data : ℕ
control_request_data = 3

abbrev pub control_session_closed : ℕ
control_session_closed = 4

abbrev pub reason_publisher_gone : ℕ
reason_publisher_gone = 1

abbrev pub session_closed_size : ℕ
session_closed_size = 1

abbrev pub control_header_size : ℕ
control_header_size = 5

abbrev pub max_control_payload : ℕ
max_control_payload = 1024

abbrev pub request_data_size : ℕ
request_data_size = 10

-- A frame as it travels: the type, the payload's length in four bytes, the payload. Admin frames
-- have the same shape.
unfoldable pub encode_frame : ℕ → List ℕ → List ℕ
encode_frame typ payload = typ ∷ (put_be 4 (length payload) ++ payload)

unfoldable pub write_control_frame : ℕ → List ℕ → Io (Unit {0})
write_control_frame typ payload = do
  check (leb (length payload) max_control_payload) (payload_too_large (length payload))
  write_full (encode_frame typ payload)

unfoldable pub read_control_frame : Io (ℕ × List ℕ)
read_control_frame = do
  header ← read_full control_header_size
  let typ = get_or header 0 0
  let size = get_be (drop 1 header)
  check (leb size max_control_payload) (payload_too_large size)
  payload ← read_full size
  return (typ, payload)

unfoldable pub write_session_closed : ℕ → Io (Unit {0})
write_session_closed reason = write_control_frame control_session_closed (reason ∷ [])

unfoldable pub read_session_closed : List ℕ → Result Error ℕ
read_session_closed payload =
    if length payload == session_closed_size
    then ok (get_or payload 0 0)
    else err (wrong_size session_closed_size (length payload))

unfoldable pub write_request_data : ℕ → ℕ → Io (Unit {0})
write_request_data id port = write_control_frame control_request_data (put_be 8 id ++ put_be 2 port)

unfoldable pub read_request_data : List ℕ → Result Error (ℕ × ℕ)
read_request_data payload =
    if length payload == request_data_size
    then ok (get_be (take 8 payload), get_be (take 2 (drop 8 payload)))
    else err (wrong_size request_data_size (length payload))
