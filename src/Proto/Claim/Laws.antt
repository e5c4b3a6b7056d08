-- ===== src/Proto/Claim/Laws.antt =====
-- internal/proto/claim.go: lemmas on the publish claim, at both ends.
use ggrok.Prelude.{
  ℕ, ◌+◌, ◌≤◌, ◌≡◌, ◌≢◌, inl, inr, List, [], ◌++◌, ap, sym, ◌∙◌, arith, length, length-append, take,
  drop, take-append_eq, drop-append_eq, true, some, Option-cases, ok, same_bytes_refl,
  same_bytes→eq,
}
use ggrok.Proto.Hello.{Hello, IsValid, encode_hello, decode_hello, role_publish, write_hello}
use ggrok.Proto.Hello.Laws.{decode_hello-encode_hello}
use ggrok.Proto.Io.{
  Conn, done, read_full, read_full-enough, read_full_cases, write_full-fits, write_full_cases, left,
  sent,
}
use ggrok.Proto.Crypto.{
  Primitives, Lawful, Credentials, key_credentials, token_credentials, session_id_for,
}
use ggrok.Proto.Claim.{
  challenge_size, claim_context, claim_message, publish_proof_size, prove_publisher, verify_claim,
  handshake,
}

-- Two claims over challenges of the right size and valid Hellos are the same message only if the
-- challenges and the Hellos are the same.
pub claim_message-injective :
    (challenge challenge' : List ℕ) (h h' : Hello)
    → length challenge ≡ challenge_size
    → length challenge' ≡ challenge_size
    → IsValid h
    → IsValid h'
    → claim_message challenge h ≡ claim_message challenge' h'
    → (challenge ≡ challenge') × (h ≡ h')
unfolding claim_message
claim_message-injective x y h h' lx ly v v' e =
    let front : x ≡ y =
      sym (take-append_eq 32 x (encode_hello h) lx)
      ∙ ap (take 32) e
      ∙ take-append_eq 32 y (encode_hello h') ly in
    let back : encode_hello h ≡ encode_hello h' =
      sym (drop-append_eq 32 x (encode_hello h) lx)
      ∙ ap (drop 32) e
      ∙ drop-append_eq 32 y (encode_hello h') ly in
    (
      front,
      sym (decode_hello-encode_hello h v) ∙ ap decode_hello back ∙ decode_hello-encode_hello h' v',
    )

module _ (p : Primitives) where
  -- When relay's check of a claim succeeds, it sent the challenge, and read a proof of the right
  -- size whose key has the SessionID of the Hello and whose signature is valid for this challenge
  -- and this Hello.
  pub verify_claim-done :
      (h : Hello) (challenge : List ℕ) (c : Conn) {c' : Conn}
      → verify_claim p h challenge c ≡ done tt c'
      → (pk : p.PublicKey) × (proof : List ℕ) × (length proof ≡ publish_proof_size p)
        × (c.incoming ≡ proof ++ c'.incoming)
        × (c'.outgoing ≡ c.outgoing ++ challenge)
        × (p.new_public_key (take p.public_key_size proof) ≡ some pk)
        × (session_id_for p pk ≡ h.session_id)
        × (p.verify pk (claim_message challenge h) (drop p.public_key_size proof) claim_context
            ≡ true)
  unfolding verify_claim
  verify_claim-done h challenge c {c'} e = elim (write_full_cases challenge c) [
    | inr (_, w) ↦ absurd (ground arith)
    | inl (_, w) ↦ elim (read_full_cases (publish_proof_size p) (sent challenge c)) [
      | inr r ↦ absurd (ground arith)
      | inl (proof, rest, len, split, r) ↦
          elim (Option-cases (p.new_public_key (take p.public_key_size proof))) [
            | inl bad ↦ absurd (ground arith)
            | inr (pk, good) ↦ (
              pk,
              proof,
              len,
              ground arith,
              ground arith,
              good,
              same_bytes→eq _ _ (ground arith),
              ground arith,
            )
          ]
    ]
  ]

  key_credentials-id :
      (k : List ℕ) (creds : Credentials p) (signer : p.PrivateKey)
      → key_credentials p k ≡ ok creds
      → creds.signer ≡ some signer
      → session_id_for p (p.public_key signer) ≡ creds.id
  unfolding key_credentials
  key_credentials-id k creds signer e is = ground arith

  -- What the publisher sends: its public key, and a signature of the claim.
  prove_publisher-done :
      (random challenge rest : List ℕ) (creds : Credentials p) (h : Hello) (a : Conn) {a' : Conn}
      → a.incoming ≡ challenge ++ rest
      → length challenge ≡ challenge_size
      → a.outgoing ≡ []
      → prove_publisher p random creds h a ≡ done tt a'
      → (signer : p.PrivateKey) × (sig : List ℕ) × (creds.signer ≡ some signer)
        × (p.sign signer random (claim_message challenge h) claim_context ≡ some sig)
        × (a'.outgoing ≡ p.key_bytes (p.public_key signer) ++ sig)
  unfolding prove_publisher
  prove_publisher-done random challenge rest creds h a {a'} ain len clean ran =
      elim (Option-cases creds.signer) [
        | inl bad ↦ absurd (ground arith)
        | inr (signer, is) ↦
            elim (Option-cases (p.sign signer random (claim_message challenge h) claim_context)) [
              | inl bad ↦ absurd (ground (arith, read))
              | inr (sig, signed) ↦
                  elim (write_full_cases (p.key_bytes (p.public_key signer) ++ sig) (left rest a)) [
                    | inl (_, w) ↦ (signer, sig, is, signed, ground (arith, read))
                    | inr (_, w) ↦ absurd (ground (arith, read))
                  ]
            ]
      ]
    where
      read : read_full 32 a ≡ done challenge (left rest a)
      read = read_full-enough 32 challenge rest a ain len

  verify_claim-accepts :
      (challenge more sig : List ℕ) (pk : p.PublicKey) (h : Hello) (b : Conn)
      → Lawful p
      → length sig ≡ p.signature_size
      → session_id_for p pk ≡ h.session_id
      → p.verify pk (claim_message challenge h) sig claim_context ≡ true
      → length challenge ≤ b.room
      → b.incoming ≡ (p.key_bytes pk ++ sig) ++ more
      → verify_claim p h challenge b ≡ done tt (left more (sent challenge b))
  unfolding verify_claim publish_proof_size
  verify_claim-accepts challenge more sig pk h b laws len same good room bin =
      let key_len = laws.length-key_bytes pk in
      ground (
        arith,
        write_full-fits challenge b room,
        read_full-enough (p.public_key_size + p.signature_size) (p.key_bytes pk ++ sig) more
            (sent challenge b) bin (omega (arith, length-append (p.key_bytes pk) sig, key_len)),
        take-append_eq p.public_key_size (p.key_bytes pk) sig key_len,
        drop-append_eq p.public_key_size (p.key_bytes pk) sig key_len,
        laws.new_public_key-key_bytes pk,
        same_bytes_refl h.session_id,
      )

  -- With lawful primitives, relay's check accepts the proof that a publisher with the session
  -- key's credentials writes for the same Hello and the same challenge.
  pub prove_publisher-verify_claim :
      (k random challenge rest more : List ℕ) (creds : Credentials p) (h : Hello) (a b : Conn)
      {a' : Conn}
      → Lawful p
      → key_credentials p k ≡ ok creds
      → h.session_id ≡ creds.id
      → a.incoming ≡ challenge ++ rest
      → length challenge ≡ challenge_size
      → a.outgoing ≡ []
      → prove_publisher p random creds h a ≡ done tt a'
      → challenge_size ≤ b.room
      → b.incoming ≡ a'.outgoing ++ more
      → verify_claim p h challenge b ≡ done tt (left more (sent challenge b))
  prove_publisher-verify_claim k random challenge rest more creds h a b laws ce same ain len clean
        ran room bin =
      let (signer, sig, is, signed, out) =
        prove_publisher-done random challenge rest creds h a ain len clean ran in
      verify_claim-accepts challenge more sig (p.public_key signer) h b laws
        (laws.length-sign signer random (claim_message challenge h) claim_context signed)
        (key_credentials-id k creds signer ce is ∙ sym same)
        (laws.verify-sign signer random (claim_message challenge h) claim_context signed)
        (omega arith) (rw (← out) bin)

  -- A subscriber's credentials never complete a publisher's handshake.
  handshake-subscriber :
      (random t : List ℕ) (mode ports : ℕ) (c : Conn) {c' : Conn}
      → handshake p random role_publish mode ports (token_credentials p t) c ≢ done tt c'
  unfolding handshake token_credentials prove_publisher write_hello
  handshake-subscriber random t mode ports c {c'} e =
      elim (write_full_cases
        (encode_hello (record { role = 1; mode = mode; session_id = drop 16 t; ports = ports }))
        c) [ inl (_, w) ↦ ground arith | inr (_, w) ↦ ground arith ]
