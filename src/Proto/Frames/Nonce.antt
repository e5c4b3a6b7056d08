-- ===== src/Proto/Frames/Nonce.antt =====
-- internal/proto/frame_conn.go: lemmas on the nonce.
use ggrok.Prelude.{
  ℕ, ◌^◌, ◌<◌, ◌≡◌, List, ap, sym, ◌∙◌, length, take, drop, take-append_eq, drop-append_eq,
}
use ggrok.Prelude.Bytes.{put_be, get_be, get_be-put_be}
use ggrok.Proto.Frames.{nonce, nonce_prefix_size}

-- Two nonces of prefixes of the right size and 64-bit frame numbers are equal only if both the
-- prefixes and the numbers are.
pub nonce-injective :
    (prefix prefix' : List ℕ) (seq seq' : ℕ)
    → length prefix ≡ nonce_prefix_size
    → length prefix' ≡ nonce_prefix_size
    → seq < 256 ^ 8
    → seq' < 256 ^ 8
    → nonce prefix seq ≡ nonce prefix' seq'
    → (prefix ≡ prefix') × (seq ≡ seq')
unfolding nonce
nonce-injective a b s t la lb hs ht e = (
  sym (take-append_eq 16 a (put_be 8 s) la) ∙ ap (take 16) e ∙ take-append_eq 16 b (put_be 8 t) lb,
  sym (get_be-put_be 8 s hs)
      ∙ ap get_be (
          sym (drop-append_eq 16 a (put_be 8 s) la)
          ∙ ap (drop 16) e
          ∙ drop-append_eq 16 b (put_be 8 t) lb)
      ∙ get_be-put_be 8 t ht,
)
