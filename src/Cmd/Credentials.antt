-- ===== src/Cmd/Credentials.antt =====
-- cmd/ggrok/credentials.go: the files of a bundle are created together or not at all. A directory is
-- its files by their names, in any order that Go's map iteration takes. What the system refuses is an
-- argument: the directory, the creation of a file, a write or close, with what it left behind, and a
-- removal.
pub mod Reservation
pub mod Complete
use ggrok.Prelude.{Bool, true, false, List, [], ◌∷◌, Option, none, some, ℕ, if◌then◌else◌}
use ggrok.Ca.Serials.{Text}
use ggrok.Ca.Files.{find, drop_file, put}

abbrev pub Disk : Type 0
Disk = List (Text × List ℕ)

pub data CredentialError : Type 0 where
  no_directory : CredentialError
  not_reserved not_written : Text → CredentialError

module _ (creates : Text → Bool) (broken : Text → Option (List ℕ)) (removes : Text → Bool) where
  -- The first loop, with O_EXCL: the names reserved so far, and the directory.
  unfoldable pub reserve : Disk → List Text → Disk → Option CredentialError × List Text × Disk
  reserve [] made d = (none, made, d)
  reserve ((name, bytes) ∷ contents) made d = elim (find name d) [
    | some _ ↦ (some (not_reserved name), made, d)
    | none ↦ elim (creates name) [
      | false ↦ (some (not_reserved name), made, d)
      | true ↦ reserve contents (name ∷ made) (put name [] d)
    ]
  ]

  -- The second loop.
  unfoldable pub write_each : Disk → Disk → Option CredentialError × Disk
  write_each [] d = (none, d)
  write_each ((name, bytes) ∷ contents) d = elim (broken name) [
    | some part ↦ (some (not_written name), put name part d)
    | none ↦ write_each contents (put name bytes d)
  ]

  -- The deferred function, where the bundle is not complete. The error of a removal is ignored.
  unfoldable pub remove_each : List Text → Disk → Disk
  remove_each [] d = d
  remove_each (name ∷ made) d = remove_each made (if removes name then drop_file name d else d)

  unfoldable pub write_credentials : Bool → Disk → Disk → Option CredentialError × Disk
  write_credentials false contents d = (some no_directory, d)
  write_credentials true contents d =
      let (refused, made, d') = reserve contents [] d in
      elim refused [
        | some e ↦ (some e, remove_each made d')
        | none ↦
            let (failed, d'') = write_each contents d' in
            elim failed [ some e ↦ (some e, remove_each made d'') | none ↦ (none, d'') ]
      ]
