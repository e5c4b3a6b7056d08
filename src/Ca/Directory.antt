-- ===== src/Ca/Directory.antt =====
-- internal/ca/ca.go: the directory in which the authority keeps the certificates that it issued and
-- the revoked ones. A certificate has what the rest of the program reads of it; PEM and X.509 are not
-- modelled, and an entry is a certificate, a file that is none, or a directory. A directory that is
-- not there reads as an empty one, and is made before a file is put into it.
pub mod Filing
pub mod Listing
pub mod Revocation
pub mod History
use ggrok.Prelude.{
  ℕ, ◌+◌, Bool, true, false, not, List, [], ◌∷◌, ◌++◌, Option, none, some, Result, ok, err, ◌==◌,
  if◌then◌else◌, same_bytes,
}
use ggrok.Prelude.Bytes.{codes}
use ggrok.Ca.Serials.{Text, serial_text, add}
use ggrok.Ca.Files.{find, drop_file, put}

pub record Cert : Type 0 where
  pub common_name : Text
  pub serial : ℕ
  pub not_after : ℕ
  -- UnknownExtKeyUsage.
  pub usages : List (List ℕ)

abbrev pub admin_eku : List ℕ
admin_eku = 1 ∷ 3 ∷ 6 ∷ 1 ∷ 4 ∷ 1 ∷ 62841 ∷ 1 ∷ 1 ∷ []

unfoldable pub has_eku : List (List ℕ) → Bool
has_eku [] = false
has_eku (oid ∷ oids) = if same_bytes oid admin_eku then true else has_eku oids

-- `none` is a nil certificate.
unfoldable pub has_admin_eku : Option Cert → Bool
has_admin_eku none = false
has_admin_eku (some c) = has_eku c.usages

pub data Entry : Type 0 where
  certificate : Cert → Entry
  unreadable subdirectory : Entry

abbrev pub Files : Type 0
Files = List (Text × Entry)

pub record Directory : Type 0 where
  pub issued : Files
  pub revoked : Files

pub record Listed : Type 0 where
  pub cert : Cert
  pub is_revoked : Bool
  pub file_name : Text

unfoldable pub read_cert_dir : Files → Option (List Listed)
read_cert_dir [] = some []
read_cert_dir ((name, subdirectory) ∷ fs) = read_cert_dir fs
read_cert_dir ((name, unreadable) ∷ fs) = none
read_cert_dir ((name, certificate c) ∷ fs) = elim (read_cert_dir fs) [
  | none ↦ none
  | some ls ↦ some (record { cert = c; is_revoked = false; file_name = name } ∷ ls)
]

unfoldable pub file_of : ℕ → Text
file_of serial = serial_text serial ++ codes ".pem"

-- How os.WriteFile ends: well, without a file, with a part of one, or in an error at its close.
pub data FileWrite : Type 0 where
  written not_opened cut_short not_closed : FileWrite

-- `Store`: whether it succeeds, and the directory. `made` is whether that of the issued could be made.
unfoldable pub store : Bool → FileWrite → Cert → Directory → Bool × Directory
store false w c d = (false, d)
store true written c d =
    (true, record d { issued = put (file_of c.serial) (certificate c) d.issued })
store true not_opened c d = (false, d)
store true cut_short c d = (false, record d { issued = put (file_of c.serial) unreadable d.issued })
store true not_closed c d =
    (false, record d { issued = put (file_of c.serial) (certificate c) d.issued })

unfoldable pub mark_revoked : List Listed → List Listed
mark_revoked [] = []
mark_revoked (l ∷ ls) = record l { is_revoked = true } ∷ mark_revoked ls

-- `List`.
unfoldable pub list_certs : Directory → Option (List Listed)
list_certs d = elim (read_cert_dir d.issued) [
  | none ↦ none
  | some issued ↦ elim (read_cert_dir d.revoked) [
    | none ↦ none
    | some revoked ↦ some (issued ++ mark_revoked revoked)
  ]
]

pub data RevokeError : Type 0 where
  no_common_name unreadable_issued none_found no_revoked_directory : RevokeError
  rename_failed : Text → RevokeError

-- os.Rename of a file from issued to revoked.
unfoldable pub move_file : Text → Directory → Directory
move_file name d = elim (find name d.issued) [
  | none ↦ d
  | some e ↦ record { issued = drop_file name d.issued; revoked = put name e d.revoked }
]

-- Whether the directory of the revoked can be made, and the files for which os.Rename fails.
module _ (made : Bool) (fails : Text → Bool) where
  -- The body of the loop of Revoke on a certificate that matches, without the move.
  unfoldable pub revoke_error : ℕ → Text → Option RevokeError
  revoke_error matched name =
      if (if matched == 0 then not made else false)
      then some no_revoked_directory
      else if fails name
      then some (rename_failed name)
      else none

  -- The loop of Revoke.
  unfoldable pub revoke_each : Text → ℕ → List Listed → Directory → Option RevokeError × Directory
  revoke_each common_name matched [] d = (if matched == 0 then some none_found else none, d)
  revoke_each common_name matched (l ∷ ls) d = elim (same_bytes l.cert.common_name common_name) [
    | false ↦ revoke_each common_name matched ls d
    | true ↦ elim (revoke_error matched l.file_name) [
      | some e ↦ (some e, d)
      | none ↦ revoke_each common_name (matched + 1) ls (move_file l.file_name d)
    ]
  ]

  unfoldable pub revoke : Text → Directory → Option RevokeError × Directory
  revoke [] d = (some no_common_name, d)
  revoke (c ∷ cs) d = elim (read_cert_dir d.issued) [
    | none ↦ (some unreadable_issued, d)
    | some issued ↦ revoke_each (c ∷ cs) 0 issued d
  ]

unfoldable pub serial_set : List Listed → List Text
serial_set [] = []
serial_set (l ∷ ls) = add (serial_text l.cert.serial) (serial_set ls)

-- `RevokedSerials`.
unfoldable pub revoked_serials : Directory → Option (List Text)
revoked_serials d = elim (read_cert_dir d.revoked) [ none ↦ none | some ls ↦ some (serial_set ls) ]
