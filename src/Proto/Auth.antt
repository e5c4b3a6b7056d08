-- ===== src/Proto/Auth.antt =====
-- internal/proto/auth.go: both ends prove that they hold the session's data secret, for one port and
-- two fresh challenges, and derive a secret for the stream. What `rand.Read` gives is an argument.
pub mod Laws
use ggrok.Prelude.{
  ℕ, ◌≡◌, List, [], ◌∷◌, ◌++◌, Option, none, some, length, take, Bool, true, false, ◌||◌,
  same_bytes, if◌then◌else◌, ◌==◌,
}
use ggrok.Prelude.Bytes.{codes, put_be}
use ggrok.Proto.Error.{Error, invalid_role, random_failed, bad_proof}
use ggrok.Proto.Hello.{role_publish, role_subscribe, role_known}
use ggrok.Proto.Io.{Io, ◌>>=◌, ◌>>◌, return, fail, check, read_full, write_full}
use ggrok.Proto.Crypto.{Primitives, Credentials, derive_key}
use ggrok.Proto.Claim.{challenge_size, or_fail}

-- `ALPN` of hello.go.
abbrev pub alpn : List ℕ
alpn = codes "ggrok/3"

abbrev pub proof_size : ℕ
proof_size = 32

-- The two challenges in the order publisher, subscriber.
unfoldable pub exchange_challenges : Option (List ℕ) → ℕ → Io (List ℕ × List ℕ)
exchange_challenges random role = do
  local ← or_fail random random_failed
  if role == role_subscribe
      then (do write_full local; remote ← read_full challenge_size; return (remote, local))
      else (do remote ← read_full challenge_size; write_full local; return (local, remote))

unfoldable pub transcript : List ℕ → List ℕ → ℕ → List ℕ
transcript pub_challenge sub_challenge port =
    alpn ++ (sub_challenge ++ (pub_challenge ++ put_be 2 port))

unfoldable pub verify_proof : List ℕ → Io (Unit {0})
verify_proof expected = do proof ← read_full proof_size; check (same_bytes proof expected) bad_proof

module _ (p : Primitives) where
  unfoldable pub tunnel_mac : List ℕ → List ℕ → List ℕ → List ℕ
  tunnel_mac secret purpose script =
      p.hmac (derive_key p secret (codes "ggrok tunnel " ++ purpose) 32) script

  abbrev pub publisher_proof : List ℕ → List ℕ → List ℕ
  publisher_proof secret script = tunnel_mac secret (codes "publisher proof") script

  abbrev pub subscriber_proof : List ℕ → List ℕ → List ℕ
  subscriber_proof secret script = tunnel_mac secret (codes "subscriber proof") script

  unfoldable pub exchange_proofs : ℕ → List ℕ → List ℕ → Io (Unit {0})
  exchange_proofs role pub_proof sub_proof =
      if role == role_publish
      then (do write_full pub_proof; verify_proof sub_proof)
      else (do verify_proof pub_proof; write_full sub_proof)

  -- `NewAuthenticatedConn`, up to the stream secret that NewEncryptedConn is given.
  unfoldable pub authenticate : Option (List ℕ) → Credentials p → ℕ → ℕ → Io (List ℕ)
  authenticate random creds role port = do
    check (role_known role) (invalid_role role)
    (pub_challenge, sub_challenge) ← exchange_challenges random role
    let script = transcript pub_challenge sub_challenge port
    exchange_proofs role (publisher_proof creds.secret script)
        (subscriber_proof creds.secret script)
    return (take 16 (tunnel_mac creds.secret (codes "stream secret") script))
