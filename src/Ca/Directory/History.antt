-- ===== src/Ca/Directory/History.antt =====
-- internal/ca/ca.go: that Store and Revoke keep the directory well-formed, whichever files Revoke
-- fails to move.
use ggrok.Prelude.{
  ℕ, ◌+◌, ◌<◌, ◌≡◌, refl, ◌∙◌, Bool, true, false, List, [], ◌∷◌, some, Option-cases, inl, inr,
  Bool-cases, All, arith, same_bytes, same_bytes_refl, same_bytes→eq,
}
use mathlib.Core.Path.{subst}
use ggrok.Ca.Serials.{Text}
use ggrok.Ca.Files.{find, drop_file, put, DistinctFiles, find-drop_file}
use ggrok.Ca.Directory.{
  Cert, Entry, certificate, unreadable, FileWrite, written, not_opened, cut_short, not_closed,
  Files, Directory, Listed, read_cert_dir, file_of, store, move_file, revoke_error, revoke_each,
  revoke,
}
use ggrok.Ca.Directory.Filing.{IsFiled, IsValid, All-drop_file}

drop_file-DistinctFiles :
    (n : Text) (fs : Files) → DistinctFiles fs → DistinctFiles (drop_file n fs)
unfolding drop_file
drop_file-DistinctFiles n [] d = tt
drop_file-DistinctFiles n ((m, e) ∷ fs) d =
    let rest = drop_file-DistinctFiles n fs d.1 in
    elim (Bool-cases (same_bytes m n)) [
      | inl hit ↦ rw hit rest
      | inr miss ↦ rw miss (find-drop_file n m fs ∙ ground (arith, d.0), rest)
    ]

put-DistinctFiles :
    (n : Text) (e : Entry) (fs : Files) → DistinctFiles fs → DistinctFiles (put n e fs)
unfolding put
put-DistinctFiles n e fs d =
    (find-drop_file n n fs ∙ ground (arith, same_bytes_refl n), drop_file-DistinctFiles n fs d)

find-IsFiled :
    (n : Text) (e : Entry) (fs : Files) → find n fs ≡ some e → All IsFiled fs → IsFiled (n, e)
unfolding find
find-IsFiled n e [] h f = absurd (ground arith)
find-IsFiled n e ((m, x) ∷ fs) h f = elim (Bool-cases (same_bytes m n)) [
  | inr miss ↦ find-IsFiled n e fs (ground arith) f.1
  | inl hit ↦
      let here : x ≡ e = ground arith in
      let at : m ≡ n = same_bytes→eq m n hit in
      subst (λ k. IsFiled (k, e)) at (subst (λ y. IsFiled (m, y)) here f.0)
]

move_file-IsValid : (n : Text) (d : Directory) → IsValid d → IsValid (move_file n d)
unfolding move_file
move_file-IsValid n d v = elim (Option-cases (find n d.issued)) [
  | inl gone ↦ let same : move_file n d ≡ d = ground arith in rw same v
  | inr (e, there) ↦
      let moved : Directory = record {
        issued = drop_file n d.issued;
        revoked = put n e d.revoked;
      } in
      let moves : move_file n d ≡ moved = ground arith in
      let filed : All IsFiled moved.revoked =
        unfold put in
        (
          find-IsFiled n e d.issued there v.issued_filed,
          All-drop_file n d.revoked v.revoked_filed,
        ) in
      rw moves (record {
        issued_filed = All-drop_file n d.issued v.issued_filed;
        revoked_filed = filed;
        issued_once = drop_file-DistinctFiles n d.issued v.issued_once;
      })
]

put-IsValid :
    (n : Text) (e : Entry) (d : Directory)
    → IsFiled (n, e)
    → IsValid d
    → IsValid (record d { issued = put n e d.issued })
unfolding put
put-IsValid n e d its v = record {
  issued_filed = (its, All-drop_file n d.issued v.issued_filed);
  revoked_filed = v.revoked_filed;
  issued_once = unfold put in put-DistinctFiles n e d.issued v.issued_once;
}

-- Store of a certificate with a positive serial keeps the directory well-formed, also if it fails.
pub store-IsValid :
    (made : Bool) (w : FileWrite) (c : Cert) (d : Directory)
    → 0 < c.serial
    → IsValid d
    → IsValid (store made w c d).1
unfolding store
store-IsValid false w c d pos v = v
store-IsValid true written c d pos v =
    put-IsValid (file_of c.serial) (certificate c) d (refl, pos) v
store-IsValid true not_opened c d pos v = v
store-IsValid true cut_short c d pos v = put-IsValid (file_of c.serial) unreadable d tt v
store-IsValid true not_closed c d pos v =
    put-IsValid (file_of c.serial) (certificate c) d (refl, pos) v

module _ (made : Bool) (fails : Text → Bool) where
  revoke_each-IsValid :
      (common_name : Text) (matched : ℕ) (ls : List Listed) (d : Directory)
      → IsValid d
      → IsValid (revoke_each made fails common_name matched ls d).1
  unfolding revoke_each
  revoke_each-IsValid common_name matched [] d v = v
  revoke_each-IsValid common_name matched (l ∷ ls) d v =
      elim (Bool-cases (same_bytes l.cert.common_name common_name)) [
        | inr other ↦
            let same : revoke_each made fails common_name matched (l ∷ ls) d
                ≡ revoke_each made fails common_name matched ls d =
              ground arith in
            rw same (revoke_each-IsValid common_name matched ls d v)
        | inl its ↦ elim (Option-cases (revoke_error made fails matched l.file_name)) [
          | inr (e, broken) ↦
              let same : (revoke_each made fails common_name matched (l ∷ ls) d).1 ≡ d =
                ground arith in
              rw same v
          | inl fine ↦
              let same : revoke_each made fails common_name matched (l ∷ ls) d
                  ≡ revoke_each made fails common_name (matched + 1) ls (move_file l.file_name d) =
                ground arith in
              rw same (
                revoke_each-IsValid common_name (matched + 1) ls (move_file l.file_name d)
                  (move_file-IsValid l.file_name d v))
        ]
      ]

  revoke-IsValid :
      (common_name : Text) (d : Directory) → IsValid d → IsValid (revoke made fails common_name d).1
  unfolding revoke
  revoke-IsValid [] d v = v
  revoke-IsValid (x ∷ xs) d v = elim (Option-cases (read_cert_dir d.issued)) [
    | inl bad ↦ let same : (revoke made fails (x ∷ xs) d).1 ≡ d = ground arith in rw same v
    | inr (ls, q) ↦
        let same : (revoke made fails (x ∷ xs) d).1 ≡ (revoke_each made fails (x ∷ xs) 0 ls d).1 =
          ground arith in
        rw same (revoke_each-IsValid (x ∷ xs) 0 ls d v)
  ]

-- What an operator does at the authority: a certificate is stored, or a common name is revoked, with
-- what fails then.
pub data Act : Type 0 where
  stores : Bool → FileWrite → Cert → Act
  revokes_name : Bool → (Text → Bool) → Text → Act

unfoldable pub act : Directory → Act → Directory
act d (stores made w c) = (store made w c d).1
act d (revokes_name made fails common_name) = (revoke made fails common_name d).1

unfoldable pub acts : Directory → List Act → Directory
acts d [] = d
acts d (a ∷ more) = acts (act d a) more

-- The serials are as newSerial draws them.
abbrev pub IsPositive : Act → Type 0
IsPositive (stores made w c) = 0 < c.serial
IsPositive (revokes_name made fails common_name) = Unit {0}

act-IsValid : (d : Directory) (a : Act) → IsPositive a → IsValid d → IsValid (act d a)
unfolding act
act-IsValid d (stores made w c) pos v = store-IsValid made w c d pos v
act-IsValid d (revokes_name made fails common_name) pos v =
    revoke-IsValid made fails common_name d v

acts-keep :
    (d : Directory) (more : List Act) → All IsPositive more → IsValid d → IsValid (acts d more)
unfolding acts
acts-keep d [] pos v = v
acts-keep d (a ∷ more) pos v = acts-keep (act d a) more pos.1 (act-IsValid d a pos.0 v)

abbrev pub empty_directory : Directory
empty_directory = record { issued = []; revoked = [] }

-- From an empty directory, any sequence of Store, with certificates of positive serials, and of
-- Revoke, failed ones included, leaves a directory in which every certificate is filed under its
-- serial, and no issued file twice.
pub acts-IsValid : (done : List Act) → All IsPositive done → IsValid (acts empty_directory done)
acts-IsValid done pos =
    acts-keep empty_directory done pos
      (record { issued_filed = tt; revoked_filed = tt; issued_once = tt })
