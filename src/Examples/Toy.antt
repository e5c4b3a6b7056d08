-- ===== src/Examples/Toy.antt =====
-- Primitives with the laws of the real ones, small enough to compute with: a key is a number, a
-- signature is the message's length and the key, and the tag of a sealed text is sixteen zeros.
use ggrok.Prelude.{
  ℕ, ◌-◌, ◌≡◌, refl, true, false, List, [], ◌∷◌, ◌++◌, Option, none, some, length, length-append,
  length-replicate, ap, take, take-append_eq, replicate, same_bytes, same_bytes_refl, arith,
}
use ggrok.Proto.Io.{Conn}
use ggrok.Proto.Crypto.{Primitives, Lawful, Credentials}
use ggrok.Proto.Hello.{Hello, role_publish, mode_tcp}

abbrev tag : List ℕ
tag = replicate 16 0

abbrev key_of : List ℕ → Option ℕ
key_of [] = none
key_of (k ∷ []) = some k
key_of (k ∷ x ∷ more) = none

abbrev pub toy : Primitives
toy = record {
  PrivateKey = ℕ;
  PublicKey = ℕ;
  public_key_size = 1;
  signature_size = 2;
  new_private_key = λ seed. some (length seed);
  public_key = λ k. k;
  key_bytes = λ k. k ∷ [];
  new_public_key = key_of;
  sign = λ k random message context. some (length message ∷ k ∷ []);
  verify = λ k message sig context. same_bytes sig (length message ∷ k ∷ []);
  sha256 = λ message. message;
  hmac = λ key message. replicate 32 1;
  hkdf = λ secret info n. replicate n 2;
  seal = λ key nonce text. text ++ tag;
  unseal = λ key nonce sealed. some (take (length sealed - 16) sealed);
}

signature_length : (sig : List ℕ) (n k : ℕ) → some (n ∷ k ∷ []) ≡ some sig → length sig ≡ 2
signature_length sig n k e = ground arith

signature_same :
    (sig : List ℕ) (n k : ℕ) → some (n ∷ k ∷ []) ≡ some sig → same_bytes sig (n ∷ k ∷ []) ≡ true
signature_same sig n k e = ground (arith, same_bytes_refl (n ∷ k ∷ []))

pub toy-Lawful : Lawful toy
toy-Lawful = record {
  length-key_bytes = λ k. refl;
  new_public_key-key_bytes = λ k. refl;
  length-sign = λ k random message context {sig} e. signature_length sig (length message) k e;
  verify-sign = λ k random message context {sig} e. signature_same sig (length message) k e;
  length-hmac = λ key message. refl;
  length-hkdf = λ secret info n. length-replicate n 2;
  length-seal = λ key nonce text. length-append text tag;
  unseal-seal = λ key nonce text.
      ap some (
        take-append_eq (length (text ++ tag) - 16) text tag
          (omega (arith, length-append text tag)));
}

-- A connection that has all of `bytes` to read, and room for a thousand more of ours.
abbrev pub wire : List ℕ → Conn
wire bytes = record { incoming = bytes; broken = false; outgoing = []; room = 1000; silent = false }

abbrev pub creds : Credentials toy
creds = record { id = replicate 16 2; secret = replicate 16 2; signer = some 32 }

abbrev pub hello : Hello
hello = record { role = role_publish; mode = mode_tcp; session_id = replicate 16 2; ports = 3 }
