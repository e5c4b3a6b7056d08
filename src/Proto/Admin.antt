-- ===== src/Proto/Admin.antt =====
-- internal/proto/admin.go: the frames of an admin connection. `json.Marshal` is a parameter: it
-- gives the bytes of a payload or fails.
pub mod Laws
use ggrok.Prelude.{
  ℕ, ◌≡◌, Bool, true, false, List, [], ◌∷◌, ◌++◌, leb, ◌==◌, if◌then◌else◌, get_or, take, drop,
  length, Result, ok, err, Option, none, some,
}
use ggrok.Prelude.Bytes.{put_be, get_be}
use ggrok.Proto.Error.{Error, payload_too_large, bad_encoding}
use ggrok.Proto.ConnKind.{conn_admin}
use ggrok.Proto.Control.{encode_frame}
use ggrok.Proto.Io.{Io, ◌>>=◌, ◌>>◌, return, fail, check, read_full, write_full}

abbrev pub admin_hello : ℕ
admin_hello = 1

abbrev pub admin_ack : ℕ
admin_ack = 2

abbrev pub admin_list : ℕ
admin_list = 3

abbrev pub admin_snapshot : ℕ
admin_snapshot = 4

abbrev pub admin_kick : ℕ
admin_kick = 5

abbrev pub admin_reload_crl : ℕ
admin_reload_crl = 6

abbrev pub admin_result : ℕ
admin_result = 7

abbrev pub admin_kill : ℕ
admin_kill = 8

abbrev pub admin_header_size : ℕ
admin_header_size = 5

abbrev pub max_admin_payload : ℕ
max_admin_payload = 1048576

-- The body that WriteAdminFrame sends: empty for a nil payload, else what the encoder gives.
unfoldable pub admin_body {ℓ} : {P : Type ℓ} → (P → Option (List ℕ)) → Option P → Option (List ℕ)
admin_body marshal none = some []
admin_body marshal (some p) = marshal p

-- The frame around a body, with the connection's kind in front where it is asked for.
unfoldable pub write_admin_body : ℕ → List ℕ → Bool → Io (Unit {0})
write_admin_body typ body with_kind = do
  check (leb (length body) max_admin_payload) (payload_too_large (length body))
  write_full (if with_kind then conn_admin ∷ encode_frame typ body else encode_frame typ body)

unfoldable pub write_admin_frame_with {ℓ} :
    {P : Type ℓ} → (P → Option (List ℕ)) → ℕ → Option P → Bool → Io (Unit {0})
write_admin_frame_with marshal typ payload with_kind = elim (admin_body marshal payload) [
  | none ↦ fail bad_encoding
  | some body ↦ write_admin_body typ body with_kind
]

unfoldable pub write_admin_frame {ℓ} :
    {P : Type ℓ} → (P → Option (List ℕ)) → ℕ → Option P → Io (Unit {0})
write_admin_frame marshal typ payload = write_admin_frame_with marshal typ payload false

unfoldable pub write_admin_hello {ℓ} : {P : Type ℓ} → (P → Option (List ℕ)) → P → Io (Unit {0})
write_admin_hello marshal payload = write_admin_frame_with marshal admin_hello (some payload) true

unfoldable pub read_admin_frame : Io (ℕ × List ℕ)
read_admin_frame = do
  header ← read_full admin_header_size
  let typ = get_or header 0 0
  let size = get_be (drop 1 header)
  check (leb size max_admin_payload) (payload_too_large size)
  body ← read_full size
  return (typ, body)

-- `DecodeAdminPayload`: an empty body leaves the value as it was.
unfoldable pub decode_admin_payload {ℓ} :
    {P : Type ℓ} → (List ℕ → Option P) → List ℕ → P → Result Error P
decode_admin_payload unmarshal [] v = ok v
decode_admin_payload unmarshal (b ∷ bs) v = elim (unmarshal (b ∷ bs)) [
  | none ↦ err bad_encoding
  | some p ↦ ok p
]
