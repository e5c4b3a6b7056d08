-- ===== src/Proto/Claim.antt =====
-- internal/proto/claim.go: how a publisher proves that a session is its own. What `rand.Read` gives
-- is an argument, and `none` its failure.
pub mod Laws
use ggrok.Prelude.{
  ℕ, ◌+◌, ◌≡◌, List, [], ◌∷◌, ◌++◌, Option, none, some, Result, ok, err, length, take, drop, Bool,
  true, false, same_bytes, if◌then◌else◌, ◌==◌,
}
use ggrok.Prelude.Bytes.{codes, IsBlock}
use ggrok.Proto.Error.{
  Error, no_session_key, sign_failed, publish_claim, random_failed, invalid_role,
}
use ggrok.Proto.Hello.{Hello, encode_hello, write_hello, read_ack, status_error, role_publish}
use ggrok.Proto.Io.{Io, ◌>>=◌, ◌>>◌, return, fail, check, read_full, write_full}
use ggrok.Proto.Crypto.{Primitives, Credentials, session_id_for}

abbrev pub challenge_size : ℕ
challenge_size = 32

abbrev pub claim_context : List ℕ
claim_context = codes "ggrok/publish-claim"

-- `publishClaim`: the message that is signed.
unfoldable pub claim_message : List ℕ → Hello → List ℕ
claim_message challenge h = challenge ++ encode_hello h

-- An error where an option has no value.
abbrev pub or_fail {ℓ} : {A : Type ℓ} → Option A → Error → Io A
or_fail none e = fail e
or_fail (some a) e = return a

-- `status.Err()` as the result.
abbrev pub status_result : ℕ → Io (Unit {0})
status_result s = elim (status_error s) [ none ↦ return tt | some e ↦ fail e ]

module _ (p : Primitives) where
  unfoldable pub publish_proof_size : ℕ
  publish_proof_size = p.public_key_size + p.signature_size

  unfoldable pub prove_publisher : List ℕ → Credentials p → Hello → Io (Unit {0})
  prove_publisher random creds h = do
    signer ← or_fail creds.signer no_session_key
    challenge ← read_full challenge_size
    sig ← or_fail (p.sign signer random (claim_message challenge h) claim_context) sign_failed
    write_full (p.key_bytes (p.public_key signer) ++ sig)

  -- `verifyPublishClaim`.
  unfoldable pub verify_claim : Hello → List ℕ → Io (Unit {0})
  verify_claim h challenge = do
    write_full challenge
    proof ← read_full (publish_proof_size)
    pk ← or_fail (p.new_public_key (take p.public_key_size proof)) publish_claim
    check (same_bytes (session_id_for p pk) h.session_id) publish_claim
    check (p.verify pk (claim_message challenge h) (drop p.public_key_size proof) claim_context)
        publish_claim

  -- `VerifyPublishClaim`.
  unfoldable pub verify_publish_claim : Option (List ℕ) → Hello → Io (Unit {0})
  verify_publish_claim random h = do
    challenge ← or_fail random random_failed
    verify_claim h challenge

  -- `Handshake` of hello.go.
  unfoldable pub handshake : List ℕ → ℕ → ℕ → ℕ → Credentials p → Io (Unit {0})
  handshake random role mode ports creds =
      let hello : Hello = record {
        role = role;
        mode = mode;
        session_id = creds.id;
        ports = ports;
      } in
      do
        write_hello hello
        if role == role_publish then prove_publisher random creds hello else return tt
        status ← read_ack
        status_result status
