-- ===== src/Mtls.antt =====
-- internal/mtls/mtls.go: the revoked serials that relay refuses, and the TLS configuration of a node.
-- The pointer of a RevocationSet is an Option, `none` for nil. Reading the files is an argument.
pub mod Enforcement
use ggrok.Prelude.{
  ℕ, Bool, true, false, List, [], ◌∷◌, Option, none, some, Result, ok, err, length, ◌==◌,
  if◌then◌else◌,
}
use ggrok.Proto.Auth.{alpn}
use ggrok.Ca.Serials.{Text, serial_text, contains}
use ggrok.Ca.Directory.{Cert}

abbrev pub RevocationSet : Type 0
RevocationSet = Option (List Text)

unfoldable pub replace : List Text → RevocationSet → RevocationSet
replace serials s = some serials

unfoldable pub new_revocation_set : List Text → RevocationSet
new_revocation_set serials = replace serials none

-- `Contains` and `Len`.
unfoldable pub is_revoked : RevocationSet → Text → Bool
is_revoked none serial = false
is_revoked (some serials) serial = contains serial serials

unfoldable pub revoked_count : RevocationSet → ℕ
revoked_count none = 0
revoked_count (some serials) = length serials

-- The loop over the chains: the certificate that is refused.
unfoldable pub refused_leaf : RevocationSet → List (List Cert) → Option Cert
refused_leaf s [] = none
refused_leaf s ([] ∷ chains) = refused_leaf s chains
refused_leaf s ((leaf ∷ rest) ∷ chains) =
    let later = refused_leaf s chains in
    if is_revoked s (serial_text leaf.serial) then some leaf else later

-- The callback of verifyNotRevoked: `none` is a nil error.
unfoldable pub verify_not_revoked : RevocationSet → List (List Cert) → Option Cert
verify_not_revoked s chains =
    let refused = refused_leaf s chains in if revoked_count s == 0 then none else refused

pub data LoadError : Type 0 where
  bad_key_pair bad_ca_file no_ca_certificates : LoadError

-- tls.Config: a key pair and a pool of certificates are numbers.
pub record TlsConfig : Type 0 where
  pub key_pair : ℕ
  pub next_protos : List (List ℕ)
  pub min_version : ℕ
  pub curve_preferences : List ℕ
  pub requires_client_cert : Bool
  pub client_cas : Option ℕ
  pub root_cas : Option ℕ
  -- Whether VerifyPeerCertificate is verifyNotRevoked.
  pub checks_revoked : Bool
  pub tickets_disabled : Bool

abbrev pub version_tls13 : ℕ
version_tls13 = 772

abbrev pub x25519_mlkem768 : ℕ
x25519_mlkem768 = 4588

-- `LoadConfig` of the key pair, the CA file and the pool in it, as far as they could be read;
-- `has_set` is whether a RevocationSet was given.
unfoldable pub load_config : Option ℕ → Bool → Option ℕ → Bool → Bool → Result LoadError TlsConfig
load_config none ca_read pool server has_set = err bad_key_pair
load_config (some pair) false pool server has_set = err bad_ca_file
load_config (some pair) true none server has_set = err no_ca_certificates
load_config (some pair) true (some pool) server has_set = ok (record {
  key_pair = pair;
  next_protos = alpn ∷ [];
  min_version = version_tls13;
  curve_preferences = x25519_mlkem768 ∷ [];
  requires_client_cert = server;
  client_cas = if server then some pool else none;
  root_cas = if server then none else some pool;
  checks_revoked = if server then has_set else false;
  tickets_disabled = server;
})
