-- ===== src/Examples/Authority.antt =====
-- An authority with two certificates, one of which is revoked, and the list of it.
use ggrok.Prelude.{
  ◌≤◌, ◌≡◌, refl, Bool, true, false, List, [], ◌∷◌, Option, none, some, ok, arith, if◌then◌else◌,
  same_bytes,
}
use ggrok.Prelude.Bytes.{codes}
use ggrok.Ca.Serials.{
  Text, serial_text, text_from, digit_char, contains, add, parse_revoked_serials, revoked_list,
}
use ggrok.Ca.Serials.RoundTrip.{parse_revoked_serials-revoked_list}
use ggrok.Ca.Files.{find, drop_file, put}
use ggrok.Ca.Directory.{
  Cert, certificate, written, cut_short, Directory, file_of, store, read_cert_dir, has_admin_eku,
  move_file, revoke_error, revoke_each, revoke, serial_set, revoked_serials,
}
use ggrok.Ca.Directory.Filing.{IsValid, holds}
use ggrok.Ca.Directory.Listing.{revokes}
use ggrok.Ca.Directory.Revocation.{revoke-revokes}
use ggrok.Ca.Directory.History.{Act, stores, revokes_name, acts, empty_directory, acts-IsValid}
use ggrok.Ca.Issue.{
  IssueRequest, Template, new_serial, issue_template, with_validity, build_bundle, issue,
}
use ggrok.Ca.Issue.Laws.{IsFaithful, issue-store}
use ggrok.Mtls.{new_revocation_set, verify_not_revoked}
use ggrok.Mtls.Enforcement.{revoke-verify_not_revoked}

abbrev pub laptop : Cert
laptop = record { common_name = codes "laptop"; serial = 171; not_after = 9000; usages = [] }

abbrev pub phone : Cert
phone = record { common_name = codes "phone"; serial = 12; not_after = 9000; usages = [] }

abbrev pub before : Directory
before = record {
  issued = (codes "ab.pem", certificate laptop) ∷ (codes "c.pem", certificate phone) ∷ [];
  revoked = [];
}

abbrev pub after : Directory
after = record {
  issued = (codes "c.pem", certificate phone) ∷ [];
  revoked = (codes "ab.pem", certificate laptop) ∷ [];
}

abbrev pub never : Text → Bool
never name = false

abbrev pub fits : Text → Bool
fits line = true

pub revoked_laptop : revoke true never (codes "laptop") before ≡ (none, after)
unfolding revoke revoke_each revoke_error read_cert_dir move_file find drop_file put same_bytes
revoked_laptop = refl

pub before-IsValid : IsValid before
unfolding file_of serial_text text_from digit_char find same_bytes
before-IsValid = record {
  issued_filed = ((refl, omega arith), ((refl, omega arith), tt));
  revoked_filed = tt;
  issued_once = (refl, (refl, tt));
}

pub after_serials : revoked_serials after ≡ some (codes "ab" ∷ [])
unfolding revoked_serials read_cert_dir serial_set add contains serial_text text_from digit_char
after_serials = refl

pub laptop_file : find (codes "ab.pem") before.issued ≡ some (certificate laptop)
unfolding find same_bytes
laptop_file = refl

revoke-revokes_example : holds (codes "c") after.revoked ≡ (
    if revokes (codes "laptop") (codes "c") before.issued
    then true
    else holds (codes "c") before.revoked)
revoke-revokes_example =
    revoke-revokes true never (codes "laptop") (codes "c") before {d' = after} before-IsValid
      revoked_laptop

revoke-verify_not_revoked_example :
    (set' : List Text) × (parse_revoked_serials fits (revoked_list (codes "ab" ∷ [])) ≡ ok set')
    × (verify_not_revoked (new_revocation_set set') ((laptop ∷ []) ∷ []) ≡ some laptop)
revoke-verify_not_revoked_example =
    revoke-verify_not_revoked fits true never (codes "laptop") (codes "ab.pem") laptop [] before
      {d' = after} {set = codes "ab" ∷ []} before-IsValid revoked_laptop laptop_file refl
      after_serials (refl, tt)

abbrev done : List Act
done =
    stores true written laptop
    ∷ stores true cut_short phone
    ∷ revokes_name true never (codes "laptop")
    ∷ []

acts-IsValid_example : IsValid (acts empty_directory done)
acts-IsValid_example = acts-IsValid done (omega arith, (omega arith, (tt, tt)))

abbrev texts : List Text
texts = serial_text 171 ∷ serial_text 12 ∷ []

parse_revoked_serials-revoked_list_example :
    (set' : List Text) × (parse_revoked_serials fits (revoked_list texts) ≡ ok set')
    × ((t : Text) → contains t set' ≡ contains t texts)
parse_revoked_serials-revoked_list_example =
    parse_revoked_serials-revoked_list fits texts
      ((171, omega arith, refl, refl), ((12, omega arith, refl, refl), tt))

-- An issuer whose certificates are their templates.
abbrev signs : Template → Option Cert
signs t = some (record {
  common_name = t.common_name;
  serial = t.serial;
  not_after = t.not_after;
  usages = t.unknown_usages;
})

signs-IsFaithful : IsFaithful signs
signs-IsFaithful t c e = ground arith

abbrev request : IssueRequest
request = record { common_name = codes "ops"; validity = 100; server = false; admin = true }

abbrev issued : Cert
issued = record {
  common_name = codes "ops";
  serial = 8;
  not_after = 1100;
  usages = (1 ∷ 3 ∷ 6 ∷ 1 ∷ 4 ∷ 1 ∷ 62841 ∷ 1 ∷ 1 ∷ []) ∷ [];
}

issued_it : issue signs 5000 request 1000 true (some 7) ≡ ok issued
unfolding issue issue_template new_serial with_validity build_bundle
issued_it = refl

issue-store_example :
    (has_admin_eku (some issued) ≡ true)
    × (issued.not_after ≤ 5000)
    × (issued.common_name ≡ codes "ops")
    × IsValid (store true written issued before).1
issue-store_example =
    issue-store signs 5000 1000 7 request true before {c = issued} signs-IsFaithful (omega arith)
      issued_it before-IsValid
