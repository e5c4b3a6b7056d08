-- ===== src/Ca/Directory/Listing.antt =====
-- internal/ca/ca.go: what readCertDir lists, and which serials and files a common name has.
use ggrok.Prelude.{
  ◌<◌, ◌≡◌, ◌∙◌, Bool, true, false, List, [], ◌∷◌, none, some, inl, inr, Bool-cases, Option-cases,
  All, arith, if◌then◌else◌, same_bytes, same_bytes_refl, same_bytes→eq,
}
use ggrok.Ca.Serials.{Text, serial_text, contains}
use ggrok.Ca.Serials.Sets.{contains-add}
use ggrok.Ca.Files.{find, drop_file, DistinctFiles, find-drop_file}
use ggrok.Ca.Directory.{
  Cert, Entry, certificate, unreadable, subdirectory, Files, Listed, read_cert_dir, file_of,
  serial_set,
}
use ggrok.Ca.Directory.Filing.{IsFiled, holds}

pub contains-serial_set :
    (t : Text) (fs : Files) {ls : List Listed}
    → read_cert_dir fs ≡ some ls
    → contains t (serial_set ls) ≡ holds t fs
unfolding read_cert_dir serial_set holds contains
contains-serial_set t [] {ls} e = ground arith
contains-serial_set t ((name, subdirectory) ∷ fs) {ls} e = contains-serial_set t fs {ls = ls} e
contains-serial_set t ((name, unreadable) ∷ fs) {ls} e = absurd (ground arith)
contains-serial_set t ((name, certificate c) ∷ fs) {ls} e = elim (Option-cases (read_cert_dir fs)) [
  | inl bad ↦ absurd (ground arith)
  | inr (ls', q) ↦
      let same : ls ≡ record { cert = c; is_revoked = false; file_name = name } ∷ ls' =
        ground arith in
      rw same (
        contains-add t (serial_text c.serial) (serial_set ls')
        ∙ ground (arith, contains-serial_set t fs {ls = ls'} q))
]

abbrev pub Absent : Text → List Listed → Type 0
Absent name ls = All (λ l. same_bytes name l.file_name ≡ false) ls

same_bytes-flip : (a b : Text) → same_bytes a b ≡ false → same_bytes b a ≡ false
same_bytes-flip a b e = elim (Bool-cases (same_bytes b a)) [
  | inr miss ↦ miss
  | inl hit ↦
      let same = same_bytes→eq b a hit in absurd (ground (arith, rw same at e, same_bytes_refl a))
]

skips :
    (m n : Text) (fs : Files) (y : Entry) {x : Entry}
    → find m fs ≡ none
    → find n fs ≡ some x
    → find n ((m, y) ∷ fs) ≡ some x
unfolding find
skips m n fs y a h = elim (Bool-cases (same_bytes m n)) [
  | inr miss ↦ ground arith
  | inl hit ↦ let same = same_bytes→eq m n hit in absurd (ground (arith, rw same at a))
]

-- What the loop still has to go through lies where it was listed.
abbrev pub Waiting : List Listed → Files → Type 0
Waiting [] fs = Unit {0}
Waiting (l ∷ ls) fs =
    (find l.file_name fs ≡ some (certificate l.cert))
    × (l.file_name ≡ file_of l.cert.serial)
    × (0 < l.cert.serial)
    × Absent l.file_name ls
    × Waiting ls fs

pub Waiting-drop_file :
    (name : Text) (ls : List Listed) (fs : Files)
    → Absent name ls
    → Waiting ls fs
    → Waiting ls (drop_file name fs)
Waiting-drop_file name [] fs a w = tt
Waiting-drop_file name (l ∷ ls) fs a w = (
  find-drop_file name l.file_name fs ∙ ground (arith, a.0, w.0),
  w.1,
  w.2,
  w.3,
  Waiting-drop_file name ls fs a.1 w.4,
)

-- Whether the list has a certificate of the common name with a serial, and under a file name.
unfoldable pub named : Text → Text → List Listed → Bool
named common_name t [] = false
named common_name t (l ∷ ls) =
    let rest = named common_name t ls in
    if same_bytes l.cert.common_name common_name
    then (if same_bytes (serial_text l.cert.serial) t then true else rest)
    else rest

-- Whether a certificate of the common name with this serial is among the files.
unfoldable pub revokes : Text → Text → Files → Bool
revokes common_name t [] = false
revokes common_name t ((name, subdirectory) ∷ fs) = revokes common_name t fs
revokes common_name t ((name, unreadable) ∷ fs) = revokes common_name t fs
revokes common_name t ((name, certificate c) ∷ fs) =
    let rest = revokes common_name t fs in
    if same_bytes c.common_name common_name
    then (if same_bytes (serial_text c.serial) t then true else rest)
    else rest

unfoldable pub goes : Text → Text → List Listed → Bool
goes common_name n [] = false
goes common_name n (l ∷ ls) =
    let rest = goes common_name n ls in
    if same_bytes l.cert.common_name common_name
    then (if same_bytes l.file_name n then true else rest)
    else rest

-- What is read of a directory waits in it.
read_cert_dir-Absent :
    (name : Text) (fs : Files) {ls : List Listed}
    → find name fs ≡ none
    → read_cert_dir fs ≡ some ls
    → Absent name ls
unfolding read_cert_dir find
read_cert_dir-Absent name [] {ls} a e = let nil : ls ≡ [] = ground arith in rw nil tt
read_cert_dir-Absent name ((m, subdirectory) ∷ fs) {ls} a e =
    read_cert_dir-Absent name fs {ls = ls} (ground arith) e
read_cert_dir-Absent name ((m, unreadable) ∷ fs) a e = absurd (ground arith)
read_cert_dir-Absent name ((m, certificate c) ∷ fs) {ls} a e =
    elim (Option-cases (read_cert_dir fs)) [
      | inl bad ↦ absurd (ground arith)
      | inr (ls', q) ↦
          let same : ls ≡ record { cert = c; is_revoked = false; file_name = m } ∷ ls' =
            ground arith in
          let rest = read_cert_dir-Absent name fs {ls = ls'} (ground arith) q in
          rw same (same_bytes-flip m name (ground arith), rest)
    ]

pub read_cert_dir-Waiting :
    (fs : Files) {ls : List Listed}
    → All IsFiled fs
    → DistinctFiles fs
    → read_cert_dir fs ≡ some ls
    → (whole : Files) → ((n : Text) (x : Entry) → find n fs ≡ some x → find n whole ≡ some x)
    → Waiting ls whole
unfolding read_cert_dir find
read_cert_dir-Waiting [] {ls} f d e whole sub = let nil : ls ≡ [] = ground arith in rw nil tt
read_cert_dir-Waiting ((m, subdirectory) ∷ fs) {ls} f d e whole sub =
    read_cert_dir-Waiting fs {ls = ls} f.1 d.1 e whole
      (λ n x h. sub n x (skips m n fs _ {x = x} d.0 h))
read_cert_dir-Waiting ((m, unreadable) ∷ fs) f d e whole sub = absurd (ground arith)
read_cert_dir-Waiting ((m, certificate c) ∷ fs) {ls} f d e whole sub =
    elim (Option-cases (read_cert_dir fs)) [
      | inl bad ↦ absurd (ground arith)
      | inr (ls', q) ↦
          let same : ls ≡ record { cert = c; is_revoked = false; file_name = m } ∷ ls' =
            ground arith in
          let rest =
            read_cert_dir-Waiting fs {ls = ls'} f.1 d.1 q whole
              (λ n x h. sub n x (skips m n fs _ {x = x} d.0 h)) in
          rw same (
            sub m (certificate c) (ground (arith, same_bytes_refl m)),
            f.0.0,
            f.0.1,
            read_cert_dir-Absent m fs {ls = ls'} d.0 q,
            rest,
          )
    ]

pub read_cert_dir-named :
    (common_name name : Text) (c : Cert) (fs : Files) {ls : List Listed}
    → read_cert_dir fs ≡ some ls
    → find name fs ≡ some (certificate c)
    → same_bytes c.common_name common_name ≡ true
    → (named common_name (serial_text c.serial) ls ≡ true) × (goes common_name name ls ≡ true)
unfolding read_cert_dir find named goes
read_cert_dir-named common_name name c [] e h cn = absurd (ground arith)
read_cert_dir-named common_name name c ((m, unreadable) ∷ fs) e h cn = absurd (ground arith)
read_cert_dir-named common_name name c ((m, subdirectory) ∷ fs) {ls} e h cn =
    elim (Bool-cases (same_bytes m name)) [
      | inl hit ↦ absurd (ground arith)
      | inr miss ↦ read_cert_dir-named common_name name c fs {ls = ls} e (ground arith) cn
    ]
read_cert_dir-named common_name name c ((m, certificate x) ∷ fs) {ls} e h cn =
    elim (Option-cases (read_cert_dir fs)) [
      | inl bad ↦ absurd (ground arith)
      | inr (ls', q) ↦
          let same : ls ≡ record { cert = x; is_revoked = false; file_name = m } ∷ ls' =
            ground arith in
          elim (Bool-cases (same_bytes m name)) [
            | inl hit ↦
                let its : x ≡ c = ground arith in
                let self = same_bytes_refl (serial_text c.serial) in ground arith
            | inr miss ↦
                let rest =
                  read_cert_dir-named common_name name c fs {ls = ls'} q (ground arith) cn in
                ground arith
          ]
    ]

pub read_cert_dir-revokes :
    (common_name t : Text) (fs : Files) {ls : List Listed}
    → read_cert_dir fs ≡ some ls
    → named common_name t ls ≡ revokes common_name t fs
unfolding read_cert_dir named revokes
read_cert_dir-revokes common_name t [] {ls} e = ground arith
read_cert_dir-revokes common_name t ((m, unreadable) ∷ fs) e = absurd (ground arith)
read_cert_dir-revokes common_name t ((m, subdirectory) ∷ fs) {ls} e =
    read_cert_dir-revokes common_name t fs {ls = ls} e
read_cert_dir-revokes common_name t ((m, certificate x) ∷ fs) {ls} e =
    elim (Option-cases (read_cert_dir fs)) [
      | inl bad ↦ absurd (ground arith)
      | inr (ls', q) ↦
          let same : ls ≡ record { cert = x; is_revoked = false; file_name = m } ∷ ls' =
            ground arith in
          let rest = read_cert_dir-revokes common_name t fs {ls = ls'} q in ground arith
    ]
