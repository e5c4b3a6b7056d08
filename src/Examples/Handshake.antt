-- ===== src/Examples/Handshake.antt =====
-- A publisher that proves its session, a token, and the two ends of a data connection.
use ggrok.Prelude.{
  inl, ℕ, ◌≡◌, refl, true, false, List, [], ◌∷◌, ◌++◌, some, ok, length, replicate, take, drop,
  arith,
}
use ggrok.Prelude.Bytes.{put_be, codes}
use ggrok.Proto.Hello.{IsValid, encode_hello, role_publish, role_subscribe}
use ggrok.Proto.Io.{Conn, done, write_full, read_full, left, sent}
use ggrok.Proto.Crypto.{key_credentials, derive_key, session_id_for}
use ggrok.Proto.Claim.{
  claim_message, claim_context, publish_proof_size, prove_publisher, verify_claim,
}
use ggrok.Proto.Claim.Laws.{verify_claim-done, prove_publisher-verify_claim}
use ggrok.Proto.Auth.{transcript, tunnel_mac, authenticate}
use ggrok.Proto.Auth.Laws.{authenticate-agree}
use ggrok.Examples.Toy.{toy, toy-Lawful, wire, creds, hello}

abbrev key : List ℕ
key = replicate 16 9

abbrev challenge : List ℕ
challenge = replicate 32 5

abbrev proof : List ℕ
proof = 32 ∷ 52 ∷ 32 ∷ []

key_creds : key_credentials toy key ≡ ok creds
unfolding key_credentials derive_key session_id_for
key_creds = refl

hello-IsValid : IsValid hello
hello-IsValid = record {
  role_ok = inl refl;
  mode_ok = refl;
  ports_pos = omega arith;
  ports_u16 = omega arith;
  id_block = (refl, ground arith);
}

abbrev publisher : Conn
publisher = wire (challenge ++ 0 ∷ [])

abbrev publisher' : Conn
publisher' = record {
  incoming = 0 ∷ [];
  broken = false;
  outgoing = proof;
  room = 997;
  silent = false;
}

publisher_proves : prove_publisher toy [] creds hello publisher ≡ done tt publisher'
unfolding prove_publisher read_full write_full claim_message encode_hello put_be
publisher_proves = refl

prove_publisher-verify_claim_example :
    verify_claim toy hello challenge (wire (proof ++ 8 ∷ []))
    ≡ done tt (left (8 ∷ []) (sent challenge (wire (proof ++ 8 ∷ []))))
prove_publisher-verify_claim_example =
    prove_publisher-verify_claim toy key [] challenge (0 ∷ []) (8 ∷ []) creds hello publisher
      (wire (proof ++ 8 ∷ [])) {a' = publisher'} toy-Lawful key_creds refl refl refl refl
      publisher_proves (omega arith) refl

relay_verifies :
    verify_claim toy hello challenge (wire (proof ++ 8 ∷ []))
    ≡ done tt (left (8 ∷ []) (sent challenge (wire (proof ++ 8 ∷ []))))
relay_verifies =
    prove_publisher-verify_claim toy key [] challenge (0 ∷ []) (8 ∷ []) creds hello publisher
      (wire (proof ++ 8 ∷ [])) {a' = publisher'} toy-Lawful key_creds refl refl refl refl
      publisher_proves (omega arith) refl

verify_claim-done_example :
    (pk : ℕ) × (shown : List ℕ) × (length shown ≡ publish_proof_size toy)
    × ((proof ++ 8 ∷ []) ≡ shown ++ 8 ∷ [])
    × (challenge ≡ [] ++ challenge)
    × (toy.new_public_key (take 1 shown) ≡ some pk)
    × (session_id_for toy pk ≡ hello.session_id)
    × (toy.verify pk (claim_message challenge hello) (drop 1 shown) claim_context ≡ true)
verify_claim-done_example =
    verify_claim-done toy hello challenge (wire (proof ++ 8 ∷ []))
      {c' = left (8 ∷ []) (sent challenge (wire (proof ++ 8 ∷ [])))} relay_verifies

abbrev port : ℕ
port = 2

abbrev other : List ℕ
other = replicate 32 6

abbrev mac : List ℕ
mac = replicate 32 1

publisher_gets :
    (other ++ mac)
    ≡ other
      ++ tunnel_mac toy creds.secret (codes "subscriber proof") (transcript challenge other port)
unfolding tunnel_mac
publisher_gets = refl

subscriber_gets :
    (challenge ++ mac)
    ≡ challenge
      ++ tunnel_mac toy creds.secret (codes "publisher proof") (transcript challenge other port)
unfolding tunnel_mac
subscriber_gets = refl

authenticate-agree_example :
    (secret : List ℕ) × (a' : Conn) × (b' : Conn) × (authenticate toy
        (some challenge)
        creds
        role_publish
        port
        (wire (other ++ mac))
      ≡ done secret a')
    × (authenticate toy (some other) creds role_subscribe port (wire (challenge ++ mac))
        ≡ done secret b')
    × (a'.outgoing ≡ challenge ++ mac)
    × (b'.outgoing ≡ other ++ mac)
authenticate-agree_example =
    authenticate-agree toy toy-Lawful challenge other port creds refl refl (wire (other ++ mac))
      (wire (challenge ++ mac)) (omega arith) (omega arith) refl refl publisher_gets subscriber_gets
