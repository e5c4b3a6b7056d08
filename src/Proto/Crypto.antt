-- ===== src/Proto/Crypto.antt =====
-- internal/proto/crypto.go: the credentials that a session key gives. The primitives (ML-DSA, HKDF,
-- SHA-256, HMAC, XChaCha20-Poly1305) are parameters, with the laws that their packages document.
use ggrok.Prelude.{
  ℕ, ◌+◌, ◌≡◌, List, ◌++◌, Option, none, some, Result, ok, err, length, take, drop, take-append_eq,
  drop-append_eq, arith, Bool, true,
}
use ggrok.Prelude.Bytes.{codes}
use ggrok.Proto.Error.{Error, bad_session_key}

-- Values are byte strings; keys are abstract.
pub record Primitives : Type 1 where
  pub PrivateKey : Type 0
  pub PublicKey : Type 0
  pub public_key_size : ℕ
  pub signature_size : ℕ
  -- mldsa.NewPrivateKey, PrivateKey.PublicKey, PublicKey.Bytes, mldsa.NewPublicKey.
  pub new_private_key : List ℕ → Option PrivateKey
  pub public_key : PrivateKey → PublicKey
  pub key_bytes : PublicKey → List ℕ
  pub new_public_key : List ℕ → Option PublicKey
  -- PrivateKey.Sign with a random source, and mldsa.Verify, of a message and a context.
  pub sign : PrivateKey → List ℕ → List ℕ → List ℕ → Option (List ℕ)
  pub verify : PublicKey → List ℕ → List ℕ → List ℕ → Bool
  pub sha256 : List ℕ → List ℕ
  pub hmac : List ℕ → List ℕ → List ℕ
  -- hkdf.New of a secret and an info string, read to a number of bytes.
  pub hkdf : List ℕ → List ℕ → ℕ → List ℕ
  -- AEAD.Seal and AEAD.Open under a key, of a nonce and a text.
  pub seal : List ℕ → List ℕ → List ℕ → List ℕ
  pub unseal : List ℕ → List ℕ → List ℕ → Option (List ℕ)

pub record Lawful (p : Primitives) : Type 0 where
  pub length-key_bytes : (k : p.PublicKey) → length (p.key_bytes k) ≡ p.public_key_size
  pub new_public_key-key_bytes : (k : p.PublicKey) → p.new_public_key (p.key_bytes k) ≡ some k
  pub length-sign :
      (k : p.PrivateKey) (random message context : List ℕ) {sig : List ℕ}
      → p.sign k random message context ≡ some sig
      → length sig ≡ p.signature_size
  pub verify-sign :
      (k : p.PrivateKey) (random message context : List ℕ) {sig : List ℕ}
      → p.sign k random message context ≡ some sig
      → p.verify (p.public_key k) message sig context ≡ true
  pub length-hmac : (key message : List ℕ) → length (p.hmac key message) ≡ 32
  pub length-hkdf : (secret info : List ℕ) (n : ℕ) → length (p.hkdf secret info n) ≡ n
  pub length-seal : (key nonce text : List ℕ) → length (p.seal key nonce text) ≡ length text + 16
  pub unseal-seal :
      (key nonce text : List ℕ) → p.unseal key nonce (p.seal key nonce text) ≡ some text

abbrev pub data_secret_size : ℕ
data_secret_size = 16

abbrev pub data_key_size : ℕ
data_key_size = 32

abbrev pub sign_seed_size : ℕ
sign_seed_size = 32

module _ (p : Primitives) where
  pub record Credentials : Type 0 where
    pub id : List ℕ
    pub secret : List ℕ
    -- `nil` for a subscriber.
    pub signer : Option p.PrivateKey

  unfoldable pub derive_key : List ℕ → List ℕ → ℕ → List ℕ
  derive_key secret info n = p.hkdf secret info n

  unfoldable pub session_id_for : p.PublicKey → List ℕ
  session_id_for k = derive_key (p.sha256 (p.key_bytes k)) (codes "ggrok/session-id") 16

  -- `SessionKey.Credentials`.
  unfoldable pub key_credentials : List ℕ → Result Error Credentials
  key_credentials k =
      elim (p.new_private_key (derive_key k (codes "ggrok/publisher-sign") sign_seed_size)) [
        | none ↦ err bad_session_key
        | some signer ↦ ok (record {
          id = session_id_for (p.public_key signer);
          secret = derive_key k (codes "ggrok/data") data_secret_size;
          signer = some signer;
        })
      ]

  -- `SubscriberToken.Credentials`.
  unfoldable pub token_credentials : List ℕ → Credentials
  token_credentials t = record {
    id = drop data_secret_size t;
    secret = take data_secret_size t;
    signer = none;
  }

  -- `Credentials.SubscriberToken`.
  unfoldable pub subscriber_token : Credentials → List ℕ
  subscriber_token c = c.secret ++ c.id

  unfoldable pub derive_data_keys : List ℕ → List ℕ × List ℕ
  derive_data_keys secret = (
    derive_key secret (codes "ggrok data key publisher->subscriber") data_key_size,
    derive_key secret (codes "ggrok data key subscriber->publisher") data_key_size,
  )

  -- With lawful primitives, the credentials that a subscriber unpacks from the token of a session
  -- key's credentials have the same identifier and data secret, and no signing key.
  pub token_credentials-subscriber_token :
      (k : List ℕ) (c : Credentials)
      → Lawful p
      → key_credentials k ≡ ok c
      → token_credentials (subscriber_token c)
        ≡ record { id = c.id; secret = c.secret; signer = none }
  unfolding key_credentials token_credentials subscriber_token derive_key
  token_credentials-subscriber_token k c laws e =
      let len : length c.secret ≡ 16 = ground (arith, laws.length-hkdf k (codes "ggrok/data") 16) in
      ground (arith, take-append_eq 16 c.secret c.id len, drop-append_eq 16 c.secret c.id len)
