-- ===== src/Ca/Directory/Revocation.antt =====
-- internal/ca/ca.go: what Revoke does to the two directories, and to the serials of the revoked.
use ggrok.Prelude.{
  ℕ, ◌+◌, ◌≡◌, refl, Bool, true, List, [], ◌∷◌, none, some, inl, inr, Bool-cases, Option-cases, All,
  arith, if◌then◌else◌, same_bytes, same_bytes_refl,
}
use ggrok.Ca.Serials.{Text, serial_text}
use ggrok.Ca.Files.{find, drop_file, put, find-drop_file}
use ggrok.Ca.Directory.{
  Cert, certificate, Directory, Listed, read_cert_dir, move_file, revoke_error, revoke_each, revoke,
}
use ggrok.Ca.Directory.Filing.{IsFiled, IsValid, holds, holds-put, All-drop_file}
use ggrok.Ca.Directory.Listing.{
  Waiting, Waiting-drop_file, named, revokes, goes, read_cert_dir-Waiting, read_cert_dir-named,
  read_cert_dir-revokes,
}

record Revoked (common_name : Text) (ls : List Listed) (d d' : Directory) : Type 0 where
  serials :
      (t : Text) → holds t d'.revoked ≡ (if named common_name t ls then true else holds t d.revoked)
  files : (n : Text) → find n d'.issued ≡ (if goes common_name n ls then none else find n d.issued)
  filed : All IsFiled d'.revoked

module _ (made : Bool) (fails : Text → Bool) where
  revoke_each-Revoked :
      (common_name : Text) (matched : ℕ) (ls : List Listed) (d : Directory) {d' : Directory}
      → All IsFiled d.revoked
      → Waiting ls d.issued
      → revoke_each made fails common_name matched ls d ≡ (none, d')
      → Revoked common_name ls d d'
  unfolding revoke_each named goes
  revoke_each-Revoked common_name matched [] d {d'} f w e =
      let same : d' ≡ d = ground arith in
      rw same (record { serials = λ t. refl; files = λ n. refl; filed = f })
  revoke_each-Revoked common_name matched (l ∷ ls) d {d'} f w e =
      elim (Bool-cases (same_bytes l.cert.common_name common_name)) [
        | inr other ↦
            let r = revoke_each-Revoked common_name matched ls d {d' = d'} f w.4 (ground arith) in
            record {
              serials = λ t. ground (arith, r.serials t);
              files = λ n. ground (arith, r.files n);
              filed = r.filed;
            }
        | inl its ↦ elim (Option-cases (revoke_error made fails matched l.file_name)) [
          | inr (broken, q) ↦ absurd (ground arith)
          | inl fine ↦
              let moved : Directory = record {
                issued = drop_file l.file_name d.issued;
                revoked = put l.file_name (certificate l.cert) d.revoked;
              } in
              let moves : move_file l.file_name d ≡ moved =
                unfold move_file in ground (arith, w.0) in
              let filed : All IsFiled moved.revoked =
                unfold put in ((w.1, w.2), All-drop_file l.file_name d.revoked f) in
              let r =
                revoke_each-Revoked common_name (matched + 1) ls moved {d' = d'} filed
                  (Waiting-drop_file l.file_name ls d.issued w.3 w.4) (ground (arith, moves)) in
              record {
                serials = λ t.
                    let now : holds t moved.revoked ≡ (
                        if same_bytes (serial_text l.cert.serial) t
                        then true
                        else holds t d.revoked) =
                      rw w.1 (holds-put l.cert t d.revoked f) in
                    ground (arith, r.serials t, now);
                files = λ n. ground (arith, r.files n, find-drop_file l.file_name n d.issued);
                filed = r.filed;
              }
        ]
      ]

  -- In a well-formed directory, after a revocation of a common name that succeeds, a serial is
  -- among the revoked exactly if it was before, or if an issued certificate of that name has it.
  pub revoke-revokes :
      (common_name t : Text) (d : Directory) {d' : Directory}
      → IsValid d
      → revoke made fails common_name d ≡ (none, d')
      → holds t d'.revoked ≡ (if revokes common_name t d.issued then true else holds t d.revoked)
  unfolding revoke
  revoke-revokes [] t d v e = absurd (ground arith)
  revoke-revokes (x ∷ xs) t d {d'} v e = elim (Option-cases (read_cert_dir d.issued)) [
    | inl bad ↦ absurd (ground arith)
    | inr (ls, q) ↦
        let r =
          revoke_each-Revoked (x ∷ xs) 0 ls d {d' = d'} v.revoked_filed
            (read_cert_dir-Waiting d.issued {ls = ls} v.issued_filed v.issued_once q d.issued
              (λ n y z. z))
            (ground arith) in
        ground (arith, r.serials t, read_cert_dir-revokes (x ∷ xs) t d.issued {ls = ls} q)
  ]

  -- In a well-formed directory, after a revocation that succeeds, the file of an issued
  -- certificate of that name is gone from the issued, its serial is among the revoked, and what is
  -- revoked is filed by its serial.
  pub revoke-holds :
      (common_name name : Text) (c : Cert) (d : Directory) {d' : Directory}
      → IsValid d
      → revoke made fails common_name d ≡ (none, d')
      → find name d.issued ≡ some (certificate c)
      → c.common_name ≡ common_name
      → (find name d'.issued ≡ none)
        × (holds (serial_text c.serial) d'.revoked ≡ true)
        × All IsFiled d'.revoked
  unfolding revoke
  revoke-holds [] name c d v e h cn = absurd (ground arith)
  revoke-holds (x ∷ xs) name c d {d'} v e h cn = elim (Option-cases (read_cert_dir d.issued)) [
    | inl bad ↦ absurd (ground arith)
    | inr (ls, q) ↦
        let r =
          revoke_each-Revoked (x ∷ xs) 0 ls d {d' = d'} v.revoked_filed
            (read_cert_dir-Waiting d.issued {ls = ls} v.issued_filed v.issued_once q d.issued
              (λ n y z. z))
            (ground arith) in
        let same : same_bytes c.common_name (x ∷ xs) ≡ true = rw cn (same_bytes_refl (x ∷ xs)) in
        let (is_named, gone) = read_cert_dir-named (x ∷ xs) name c d.issued {ls = ls} q h same in
        (ground (arith, r.files name), ground (arith, r.serials (serial_text c.serial)), r.filed)
  ]
