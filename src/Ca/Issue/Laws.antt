-- ===== src/Ca/Issue/Laws.antt =====
-- internal/ca/ca.go: what a certificate of Issue is good for, and for how long.
use ggrok.Prelude.{
  ℕ, ◌+◌, ◌≤◌, ◌<◌, ◌≡◌, ◌≢◌, refl, sym, ap, ◌∙◌, Bool, true, false, [], ◌∷◌, Option, some,
  Option-cases, ok, inl, inr, Bool-cases, List-cases, ltb, arith, if◌then◌else◌, same_bytes_refl,
}
use ggrok.Ca.Serials.{Text}
use ggrok.Ca.Directory.{Cert, admin_eku, has_eku, has_admin_eku, Directory, written, store}
use ggrok.Ca.Directory.Filing.{IsValid}
use ggrok.Ca.Directory.History.{store-IsValid}
use ggrok.Ca.Issue.{
  default_device_validity, serial_limit, serial_bound, IssueRequest, client_auth, server_auth,
  Template, new_serial, issue_template, with_validity, build_bundle, issue,
}

-- What the template of an issued certificate has.
pub record IsIssued (ca_not_after now : ℕ) (request : IssueRequest) (t : Template) : Type 0 where
  pub named : request.common_name ≢ []
  pub name : t.common_name ≡ request.common_name
  pub serial_positive : 0 < t.serial
  pub serial_bounded : t.serial < serial_limit
  pub unexpired : now < t.not_after
  pub within_ca : t.not_after ≤ ca_not_after
  pub one_usage : t.usages ≡ (if request.server then server_auth ∷ [] else client_auth ∷ [])
  pub role : has_eku t.unknown_usages ≡ request.admin
  pub leaf : t.is_ca ≡ false

role_lem : (admin : Bool) → has_eku (if admin then admin_eku ∷ [] else []) ≡ admin
unfolding has_eku
role_lem true = ground (arith, same_bytes_refl admin_eku)
role_lem false = refl

issue_template-IsIssued :
    (ca_not_after now n : ℕ) (request : IssueRequest) (validity : ℕ) (c : ℕ) (cs : Text)
    → request.common_name ≡ c ∷ cs
    → n < serial_bound
    → ltb ca_not_after (now + with_validity default_device_validity validity) ≡ false
    → IsIssued ca_not_after now request (
        issue_template
          (record request { validity = with_validity default_device_validity validity })
          now
          (n + 1))
unfolding issue_template with_validity
issue_template-IsIssued ca_not_after now n request validity c cs q small lasts = record {
  named = λ e. absurd (ground arith);
  name = refl;
  serial_positive = ground arith;
  serial_bounded = omega (arith, small);
  unexpired = ground arith;
  within_ca = ground arith;
  one_usage = refl;
  role = role_lem request.admin;
  leaf = refl;
}

module _ {ℓ} {B : Type ℓ} (signs : Template → Option B) where
  -- If the serial was drawn below its bound, a certificate that Issue signs was asked for with a
  -- common name, has that name, a serial from 1 to 2 ^ 128 - 1, an expiry after now and not after
  -- the CA's, the one usage of its kind, and the admin usage exactly if the request says so.
  pub issue-IsIssued :
      (ca_not_after now n : ℕ) (request : IssueRequest) (key : Bool) {b : B}
      → n < serial_bound
      → issue signs ca_not_after request now key (some n) ≡ ok b
      → (t : Template) × (signs t ≡ some b) × IsIssued ca_not_after now request t
  unfolding issue new_serial build_bundle
  issue-IsIssued ca_not_after now n request key {b} small e =
      elim (List-cases request.common_name) [
        | inl nameless ↦ absurd (ground arith)
        | inr (c, cs, q) ↦
            let validity = with_validity default_device_validity request.validity in
            elim (Bool-cases (ltb ca_not_after (now + validity))) [
              | inl outlives ↦ absurd (ground arith)
              | inr lasts ↦
                  let t = issue_template (record request { validity = validity }) now (n + 1) in
                  elim (Option-cases (signs t)) [
                    | inl refused ↦ absurd (ground arith)
                    | inr (b', signed) ↦
                        let its : b' ≡ b = ground arith in
                        (
                          t,
                          rw its at signed,
                          issue_template-IsIssued ca_not_after now n request request.validity c cs q
                              small lasts,
                        )
                  ]
            ]
      ]

-- What x509 does with a template: the certificate that is parsed back says what the template does.
abbrev pub IsFaithful : (Template → Option Cert) → Type 0
IsFaithful signs =
    (t : Template) (c : Cert)
    → signs t ≡ some c
    → (c.serial ≡ t.serial)
      × (c.common_name ≡ t.common_name)
      × (c.not_after ≡ t.not_after)
      × (c.usages ≡ t.unknown_usages)

-- If x509 parses back what was signed, and the serial was drawn below its bound, a certificate
-- that Issue returns has the admin role exactly if the request says so, the name of the request
-- and an expiry not after the CA's, and Store keeps a well-formed directory well-formed.
pub issue-store :
    (signs : Template → Option Cert) (ca_not_after now n : ℕ) (request : IssueRequest) (key : Bool)
    (d : Directory) {c : Cert}
    → IsFaithful signs
    → n < serial_bound
    → issue signs ca_not_after request now key (some n) ≡ ok c
    → IsValid d
    → (has_admin_eku (some c) ≡ request.admin)
      × (c.not_after ≤ ca_not_after)
      × (c.common_name ≡ request.common_name)
      × IsValid (store true written c d).1
unfolding has_admin_eku
issue-store signs ca_not_after now n request key d {c} faithful small e v =
    let (t, signed, i) = issue-IsIssued signs ca_not_after now n request key {b = c} small e in
    let (serial, name, until, usages) = faithful t c signed in
    (
      ap has_eku usages ∙ i.role,
      rw (sym until) at i.within_ca,
      name ∙ i.name,
      store-IsValid true written c d (rw (sym serial) at i.serial_positive) v,
    )
