-- ===== src/Ca/Issue.antt =====
-- internal/ca/ca.go: the certificate that Issue signs, and the serial that it draws. Times are whole
-- seconds, and a validity that is not positive is 0. Keys, names and addresses of the certificate are
-- not modelled; x509.CreateCertificate with the parsing behind it is a parameter.
pub mod Laws
use ggrok.Prelude.{
  ℕ, ◌+◌, ◌-◌, ◌*◌, ◌^◌, Bool, true, false, List, [], ◌∷◌, Option, none, some, Result, ok, err, leb,
  ltb, ◌==◌, if◌then◌else◌,
}
use ggrok.Ca.Serials.{Text}
use ggrok.Ca.Directory.{Cert, admin_eku}

abbrev pub default_device_validity : ℕ
default_device_validity = 90 * 24 * 3600

abbrev pub default_ca_validity : ℕ
default_ca_validity = 10 * 365 * 24 * 3600

abbrev pub serial_limit : ℕ
serial_limit = 2 ^ 128

pub record IssueRequest : Type 0 where
  pub common_name : Text
  pub validity : ℕ
  pub server : Bool
  pub admin : Bool

pub data ExtKeyUsage : Type 0 where
  client_auth server_auth : ExtKeyUsage

pub data KeyUsage : Type 0 where
  digital_signature cert_sign crl_sign : KeyUsage

-- What the x509.Certificate that is signed is filled with.
pub record Template : Type 0 where
  pub serial : ℕ
  pub common_name : Text
  pub not_before : ℕ
  pub not_after : ℕ
  pub key_usage : List KeyUsage
  pub usages : List ExtKeyUsage
  pub unknown_usages : List (List ℕ)
  pub is_ca : Bool

pub data IssueError : Type 0 where
  no_common_name outlives_ca no_key no_serial not_signed : IssueError

-- `newSerial` of what rand.Int drew below the bound that it is given, `none` if it failed.
abbrev pub serial_bound : ℕ
serial_bound = serial_limit - 1

unfoldable pub new_serial : Option ℕ → Option ℕ
new_serial none = none
new_serial (some n) = some (n + 1)

abbrev pub five_minutes : ℕ
five_minutes = 300

-- The template of Issue, with the validity that the request has by then.
unfoldable pub issue_template : IssueRequest → ℕ → ℕ → Template
issue_template request now serial = record {
  serial = serial;
  common_name = request.common_name;
  not_before = now - five_minutes;
  not_after = now + request.validity;
  key_usage = digital_signature ∷ [];
  usages = if request.server then server_auth ∷ [] else client_auth ∷ [];
  unknown_usages = if request.admin then admin_eku ∷ [] else [];
  is_ca = false;
}

unfoldable pub with_validity : ℕ → ℕ → ℕ
with_validity default validity = if validity == 0 then default else validity

-- `defineCertificate`.
unfoldable pub define_certificate : Text → ℕ → ℕ → Option ℕ → Result IssueError Template
define_certificate common_name validity now draw = elim (new_serial draw) [
  | none ↦ err no_serial
  | some serial ↦ ok (record {
    serial = serial;
    common_name = common_name;
    not_before = now - five_minutes;
    not_after = now + validity;
    key_usage = cert_sign ∷ crl_sign ∷ digital_signature ∷ [];
    usages = [];
    unknown_usages = [];
    is_ca = true;
  })
]

module _ {ℓ} {B : Type ℓ} (signs : Template → Option B) where
  -- `signCertificate`, or CreateCertificate, with `buildBundle`.
  unfoldable pub build_bundle : Template → Result IssueError B
  build_bundle t = elim (signs t) [ none ↦ err not_signed | some b ↦ ok b ]

  -- `Issue` by a CA that expires at `ca_not_after`; `key` is whether a key was generated.
  unfoldable pub issue : ℕ → IssueRequest → ℕ → Bool → Option ℕ → Result IssueError B
  issue ca_not_after request now key draw = elim request.common_name [
    | [] ↦ err no_common_name
    | _ ∷ _ ↦
        let request' = record request {
          validity = with_validity default_device_validity request.validity;
        } in
        if ltb ca_not_after (now + request'.validity)
        then err outlives_ca
        else if key
        then elim (new_serial draw) [
          | none ↦ err no_serial
          | some serial ↦ build_bundle (issue_template request' now serial)
        ]
        else err no_key
  ]

  -- `Init`.
  unfoldable pub init : Text → ℕ → ℕ → Bool → Option ℕ → Result IssueError B
  init [] validity now key draw = err no_common_name
  init (c ∷ cs) validity now false draw = err no_key
  init (c ∷ cs) validity now true draw =
      elim (define_certificate (c ∷ cs) (with_validity default_ca_validity validity) now draw) [
        | err e ↦ err e
        | ok t ↦ build_bundle t
      ]
