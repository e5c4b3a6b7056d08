-- ===== src/Proto/ConnKind.antt =====
-- internal/proto/connkind.go: the byte that opens every connection to relay.
use ggrok.Prelude.{ℕ, ◌≡◌, Bool, ◌||◌, List, [], ◌∷◌, arith, ◌==◌, if◌then◌else◌, get_or, refl}
use ggrok.Proto.Error.{invalid_kind}
use ggrok.Proto.Io.{
  Conn, done, failed, Io, ◌>>=◌, ◌>>◌, return, check, read_full, read_full-enough, write_full, left,
}

abbrev pub conn_control : ℕ
conn_control = 1

abbrev pub conn_data : ℕ
conn_data = 2

abbrev pub conn_admin : ℕ
conn_admin = 3

unfoldable pub valid_conn_kind : ℕ → Bool
valid_conn_kind kind = kind == conn_control || (kind == conn_data || kind == conn_admin)

unfoldable pub write_conn_kind : ℕ → Io (Unit {0})
write_conn_kind kind = do check (valid_conn_kind kind) (invalid_kind kind); write_full (kind ∷ [])

unfoldable pub read_conn_kind : Io ℕ
read_conn_kind = do
  buf ← read_full 1
  let kind = get_or buf 0 0
  check (valid_conn_kind kind) (invalid_kind kind)
  return kind

-- `read_conn_kind` reads the first byte and no more, and answers by whether that byte is one of
-- the three known kinds.
pub read_conn_kind-byte :
    (kind : ℕ) (rest : List ℕ) (c : Conn)
    → c.incoming ≡ kind ∷ rest
    → read_conn_kind c ≡ (
        if valid_conn_kind kind
        then done kind (left rest c)
        else failed (invalid_kind kind) (left rest c))
unfolding read_conn_kind
read_conn_kind-byte kind rest c e = ground (arith, read_full-enough 1 (kind ∷ []) rest c e refl)
