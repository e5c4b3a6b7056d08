-- ===== src/Ca/Directory/Filing.antt =====
-- internal/ca/ca.go: where certificates lie, and that Store and Revoke keep them there.
use ggrok.Prelude.{
  ℕ, ◌<◌, ◌≡◌, refl, sym, ap, ◌∙◌, Bool, true, false, [], ◌∷◌, ◌++◌, inl, inr, Bool-cases, All,
  arith, if◌then◌else◌, same_bytes, same_bytes→eq,
}
use ggrok.Prelude.Bytes.{codes}
use ggrok.Ca.Serials.{Text, serial_text, hex_char, all_hex}
use ggrok.Ca.Serials.Hex.{all_hex-serial_text}
use ggrok.Ca.Files.{drop_file, put, DistinctFiles}
use ggrok.Ca.Directory.{
  Cert, Entry, certificate, unreadable, subdirectory, Files, Directory, file_of,
}

stem : Text → Text
stem [] = []
stem (c ∷ cs) = let rest = stem cs in if hex_char c then c ∷ rest else []

stem-file : (s rest : Text) → all_hex s ≡ true → stem (s ++ 46 ∷ rest) ≡ s
unfolding stem all_hex hex_char
stem-file [] rest h = refl
stem-file (c ∷ s) rest h = ground (arith, stem-file s rest)

-- A file name determines the serial's text.
pub file_of-injective : (m n : ℕ) → file_of m ≡ file_of n → serial_text m ≡ serial_text n
unfolding file_of
file_of-injective m n e =
    sym (stem-file (serial_text m) (codes "pem") (all_hex-serial_text m))
    ∙ ap stem e
    ∙ stem-file (serial_text n) (codes "pem") (all_hex-serial_text n)

-- Certificates lie where Store puts them, and have serials as newSerial draws them.
abbrev pub IsFiled : Text × Entry → Type 0
IsFiled (name, certificate c) = (name ≡ file_of c.serial) × (0 < c.serial)
IsFiled (name, unreadable) = Unit {0}
IsFiled (name, subdirectory) = Unit {0}

pub record IsValid (d : Directory) : Type 0 where
  pub issued_filed : All IsFiled d.issued
  pub revoked_filed : All IsFiled d.revoked
  pub issued_once : DistinctFiles d.issued

-- Whether a certificate with this serial is among the files.
unfoldable pub holds : Text → Files → Bool
holds t [] = false
holds t ((name, subdirectory) ∷ fs) = holds t fs
holds t ((name, unreadable) ∷ fs) = holds t fs
holds t ((name, certificate c) ∷ fs) =
    if same_bytes (serial_text c.serial) t then true else holds t fs

-- Without the file of one serial, the others are all there.
pub holds-drop_file :
    (serial : ℕ) (t : Text) (fs : Files)
    → All IsFiled fs
    → same_bytes (serial_text serial) t ≡ false
    → holds t (drop_file (file_of serial) fs) ≡ holds t fs
unfolding holds drop_file
holds-drop_file serial t [] f ne = refl
holds-drop_file serial t ((name, subdirectory) ∷ fs) f ne =
    let rest = holds-drop_file serial t fs f.1 ne in
    elim (Bool-cases (same_bytes name (file_of serial))) [
      | inl hit ↦ ground arith
      | inr miss ↦ ground arith
    ]
holds-drop_file serial t ((name, unreadable) ∷ fs) f ne =
    let rest = holds-drop_file serial t fs f.1 ne in
    elim (Bool-cases (same_bytes name (file_of serial))) [
      | inl hit ↦ ground arith
      | inr miss ↦ ground arith
    ]
holds-drop_file serial t ((name, certificate c) ∷ fs) f ne =
    let rest = holds-drop_file serial t fs f.1 ne in
    elim (Bool-cases (same_bytes name (file_of serial))) [
      | inl hit ↦
          let at : file_of c.serial ≡ file_of serial =
            sym f.0.0 ∙ same_bytes→eq name (file_of serial) hit in
          let same = file_of-injective c.serial serial at in
          let other : same_bytes (serial_text c.serial) t ≡ false = rw same ne in ground arith
      | inr miss ↦ ground arith
    ]

pub holds-put :
    (c : Cert) (t : Text) (fs : Files)
    → All IsFiled fs
    → holds t (put (file_of c.serial) (certificate c) fs)
      ≡ (if same_bytes (serial_text c.serial) t then true else holds t fs)
unfolding put holds
holds-put c t fs f = elim (Bool-cases (same_bytes (serial_text c.serial) t)) [
  | inl same ↦ ground arith
  | inr other ↦ ground (arith, holds-drop_file c.serial t fs f other)
]

pub All-drop_file : (name : Text) (fs : Files) → All IsFiled fs → All IsFiled (drop_file name fs)
unfolding drop_file
All-drop_file name [] f = tt
All-drop_file name ((m, e) ∷ fs) f = elim (Bool-cases (same_bytes m name)) [
  | inl hit ↦ rw hit (All-drop_file name fs f.1)
  | inr miss ↦ rw miss (f.0, All-drop_file name fs f.1)
]
