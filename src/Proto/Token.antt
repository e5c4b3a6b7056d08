-- ===== src/Proto/Token.antt =====
-- internal/proto/token.go: the text of a session key and of a subscriber token. The base32 encoding of
-- the standard library is a parameter.
use ggrok.Prelude.{
  ℕ, ◌+◌, ◌≡◌, List, Option, none, some, Result, ok, err, length, arith, ◌==◌, if◌then◌else◌,
}
use ggrok.Proto.Crypto.{data_secret_size}
use ggrok.Proto.Hello.{session_id_size}

abbrev pub session_key_size : ℕ
session_key_size = 16

abbrev pub subscriber_token_size : ℕ
subscriber_token_size = data_secret_size + session_id_size

pub data TokenError : Type 0 where
  not_base32 : TokenError
  wrong_width : ℕ → ℕ → TokenError

-- `tokenEncoding.EncodeToString` and `tokenEncoding.DecodeString`.
module _ (encode : List ℕ → List ℕ) (decode : List ℕ → Option (List ℕ)) where
  -- `out` is the width of the array that is decoded into.
  unfoldable pub decode_secret : List ℕ → ℕ → Result TokenError (List ℕ)
  decode_secret s out = elim (decode s) [
    | none ↦ err not_base32
    | some decoded ↦
        if length decoded == out then ok decoded else err (wrong_width out (length decoded))
  ]

  unfoldable pub key_string : List ℕ → List ℕ
  key_string k = encode k

  unfoldable pub parse_session_key : List ℕ → Result TokenError (List ℕ)
  parse_session_key s = decode_secret s session_key_size

  unfoldable pub token_string : List ℕ → List ℕ
  token_string t = encode t

  unfoldable pub parse_subscriber_token : List ℕ → Result TokenError (List ℕ)
  parse_subscriber_token s = decode_secret s subscriber_token_size

  -- If decoding undoes encoding, the text of a key is parsed to the key, and as a token it is refused
  -- for its width, which the error names.
  parse_session_key-key_string :
      (k : List ℕ)
      → decode (encode k) ≡ some k
      → length k ≡ session_key_size
      → (parse_session_key (key_string k) ≡ ok k)
        × (parse_subscriber_token (key_string k) ≡ err (wrong_width 32 16))
  unfolding decode_secret key_string parse_session_key parse_subscriber_token
  parse_session_key-key_string k e width = (ground arith, ground arith)

  -- If decoding undoes encoding, the text of a token is parsed to the token, and as a key it is
  -- refused for its width, which the error names.
  parse_subscriber_token-token_string :
      (t : List ℕ)
      → decode (encode t) ≡ some t
      → length t ≡ subscriber_token_size
      → (parse_subscriber_token (token_string t) ≡ ok t)
        × (parse_session_key (token_string t) ≡ err (wrong_width 16 32))
  unfolding decode_secret token_string parse_session_key parse_subscriber_token
  parse_subscriber_token-token_string t e width = (ground arith, ground arith)
