-- ===== src/Mtls/Enforcement.antt =====
-- What `ggrok ca revoke` and `ggrok ca crl` do at the authority, and relay with the list (internal/ca,
-- cmd/ggrok/ca.go, internal/mtls): from a common name to a handshake that is refused.
use ggrok.Prelude.{
  ℕ, ◌<◌, ◌≡◌, refl, ap, ◌∙◌, Bool, true, false, List, [], ◌∷◌, none, some, Option-cases, ok, inl,
  inr, Bool-cases, All, arith, if◌then◌else◌,
}
use ggrok.Ca.Serials.{Text, serial_text, contains, add, parse_revoked_serials, revoked_list}
use ggrok.Ca.Serials.RoundTrip.{IsSerial, parse_revoked_serials-revoked_list}
use ggrok.Ca.Files.{find}
use ggrok.Ca.Directory.{
  Cert, certificate, unreadable, subdirectory, Files, Directory, Listed, read_cert_dir, revoke,
  serial_set, revoked_serials,
}
use ggrok.Ca.Directory.Filing.{IsFiled, IsValid, holds}
use ggrok.Ca.Directory.Listing.{contains-serial_set}
use ggrok.Ca.Directory.Revocation.{revoke-holds}
use ggrok.Mtls.{
  RevocationSet, replace, new_revocation_set, is_revoked, revoked_count, refused_leaf,
  verify_not_revoked,
}

-- A leaf is refused exactly if its serial is in the set.
pub verify_not_revoked-leaf :
    (s : RevocationSet) (leaf : Cert) (rest : List Cert)
    → verify_not_revoked s ((leaf ∷ rest) ∷ [])
      ≡ (if is_revoked s (serial_text leaf.serial) then some leaf else none)
unfolding verify_not_revoked refused_leaf is_revoked revoked_count contains
verify_not_revoked-leaf none leaf rest = refl
verify_not_revoked-leaf (some []) leaf rest = refl
verify_not_revoked-leaf (some (t ∷ ts)) leaf rest = ground arith

-- The text of a positive serial.
abbrev IsText : Text → Type 0
IsText t = (n : ℕ) × (0 < n) × (t ≡ serial_text n)

All-add : (t : Text) (set : List Text) → IsText t → All IsText set → All IsText (add t set)
unfolding add
All-add t set p h = elim (Bool-cases (contains t set)) [
  | inl old ↦ rw old h
  | inr new ↦ rw new (p, h)
]

serial_set-texts :
    (fs : Files) {ls : List Listed}
    → All IsFiled fs
    → read_cert_dir fs ≡ some ls
    → All IsText (serial_set ls)
unfolding read_cert_dir serial_set
serial_set-texts [] {ls} f e = let nil : ls ≡ [] = ground arith in rw nil tt
serial_set-texts ((m, unreadable) ∷ fs) f e = absurd (ground arith)
serial_set-texts ((m, subdirectory) ∷ fs) {ls} f e = serial_set-texts fs {ls = ls} f.1 e
serial_set-texts ((m, certificate c) ∷ fs) {ls} f e = elim (Option-cases (read_cert_dir fs)) [
  | inl bad ↦ absurd (ground arith)
  | inr (ls', q) ↦
      let same : ls ≡ record { cert = c; is_revoked = false; file_name = m } ∷ ls' = ground arith in
      let rest = serial_set-texts fs {ls = ls'} f.1 q in
      rw same (All-add (serial_text c.serial) (serial_set ls') (c.serial, f.0.1, refl) rest)
]

module _ (fits : Text → Bool) where
  Fits : Text → Type 0
  Fits t = fits t ≡ true

  serials : (set : List Text) → All IsText set → All Fits set → All (IsSerial fits) set
  unfolding Fits
  serials [] h f = tt
  serials (t ∷ set) h f = ((h.0.0, h.0.1, h.0.2, f.0), serials set h.1 f.1)

  -- The list that is printed after a revocation parses, and has the certificate's serial.
  pub parse_revoked_serials-revoked_serials :
      (d : Directory) {set : List Text}
      → All IsFiled d.revoked
      → revoked_serials d ≡ some set
      → All (λ t. fits t ≡ true) set
      → (set' : List Text) × (parse_revoked_serials fits (revoked_list set) ≡ ok set')
        × ((t : Text) → contains t set' ≡ holds t d.revoked)
  unfolding revoked_serials Fits
  parse_revoked_serials-revoked_serials d {set} f e fit =
      elim (Option-cases (read_cert_dir d.revoked)) [
        | inl bad ↦ absurd (ground arith)
        | inr (ls, q) ↦
            let its : set ≡ serial_set ls = ground arith in
            let texts : All IsText set = rw its (serial_set-texts d.revoked {ls = ls} f q) in
            let (set', parsed, has) =
              parse_revoked_serials-revoked_list fits set (serials set texts fit) in
            (
              set',
              parsed,
              λ t. has t ∙ ap (contains t) its ∙ contains-serial_set t d.revoked {ls = ls} q,
            )
      ]

  pub revoke-parse_revoked_serials :
      (made : Bool) (fails : Text → Bool) (common_name name : Text) (c : Cert) (d : Directory)
      {d' : Directory} {set : List Text}
      → IsValid d
      → revoke made fails common_name d ≡ (none, d')
      → find name d.issued ≡ some (certificate c)
      → c.common_name ≡ common_name
      → revoked_serials d' ≡ some set
      → All (λ t. fits t ≡ true) set
      → (set' : List Text) × (parse_revoked_serials fits (revoked_list set) ≡ ok set')
        × (contains (serial_text c.serial) set' ≡ true)
  revoke-parse_revoked_serials made fails common_name name c d {d'} {set} v e h cn read fit =
      let (gone, held, filed) = revoke-holds made fails common_name name c d {d' = d'} v e h cn in
      let (set', parsed, has) =
        parse_revoked_serials-revoked_serials d' {set = set} filed read fit in
      (set', parsed, has (serial_text c.serial) ∙ held)

  -- If the revoked certificates are filed by positive serials that can be read and fit the
  -- scanner, the list that is printed of them parses, and refuses a handshake exactly if the
  -- leaf's serial is among the revoked.
  pub verify_not_revoked-revoked_list :
      (d : Directory) (leaf : Cert) (rest : List Cert) {set : List Text}
      → All IsFiled d.revoked
      → revoked_serials d ≡ some set
      → All (λ t. fits t ≡ true) set
      → (set' : List Text) × (parse_revoked_serials fits (revoked_list set) ≡ ok set')
        × (verify_not_revoked (new_revocation_set set') ((leaf ∷ rest) ∷ [])
            ≡ (if holds (serial_text leaf.serial) d.revoked then some leaf else none))
  unfolding new_revocation_set replace is_revoked
  verify_not_revoked-revoked_list d leaf rest {set} f e fit =
      let (set', parsed, has) = parse_revoked_serials-revoked_serials d {set = set} f e fit in
      (
        set',
        parsed,
        ground
            (arith, has (serial_text leaf.serial), verify_not_revoked-leaf (some set') leaf rest),
      )

  -- If the directory is well-formed, a revocation of a common name succeeded, and the then revoked
  -- serials can be read and fit relay's scanner, then the list that is printed of them parses, and
  -- a handshake with a certificate of that name is refused.
  pub revoke-verify_not_revoked :
      (made : Bool) (fails : Text → Bool) (common_name name : Text) (c : Cert) (rest : List Cert)
      (d : Directory) {d' : Directory} {set : List Text}
      → IsValid d
      → revoke made fails common_name d ≡ (none, d')
      → find name d.issued ≡ some (certificate c)
      → c.common_name ≡ common_name
      → revoked_serials d' ≡ some set
      → All (λ t. fits t ≡ true) set
      → (set' : List Text) × (parse_revoked_serials fits (revoked_list set) ≡ ok set')
        × (verify_not_revoked (new_revocation_set set') ((c ∷ rest) ∷ []) ≡ some c)
  revoke-verify_not_revoked made fails common_name name c rest d {d'} {set} v e h cn read fit =
      let (gone, held, filed) = revoke-holds made fails common_name name c d {d' = d'} v e h cn in
      let (set', parsed, refuses) =
        verify_not_revoked-revoked_list d' c rest {set = set} filed read fit in
      (set', parsed, ground arith)
