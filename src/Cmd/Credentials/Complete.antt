-- ===== src/Cmd/Credentials/Complete.antt =====
-- cmd/ggrok/credentials.go: a bundle that fails destroys nothing.
use ggrok.Prelude.{
  ℕ, ◌≡◌, refl, Bool, true, false, List, [], ◌∷◌, Option, none, some, Option-cases, Bool-cases, inl,
  inr, arith, same_bytes, same_bytes→eq,
}
use mathlib.Core.Path.{subst}
use ggrok.Ca.Serials.{Text}
use ggrok.Ca.Files.{find, put, DistinctFiles}
use ggrok.Cmd.Credentials.{
  Disk, CredentialError, reserve, write_each, remove_each, write_credentials,
}
use ggrok.Cmd.Credentials.Reservation.{
  find-put, listed, OnlyNew, reserve-OnlyNew, write_each-OnlyNew, reserve-Reserved, Restored,
  OnlyNew-Restored,
}

-- The files as they are written.
abbrev pub overlay : Option (List ℕ) → Option (List ℕ) → Option (List ℕ)
overlay none old = old
overlay (some new) old = some new

module _ (creates : Text → Bool) (broken : Text → Option (List ℕ)) (removes : Text → Bool) where
  -- A bundle that is not written completely leaves every file that the directory had as it was,
  -- and leaves a new one only where its removal failed.
  pub write_credentials-err :
      (directory : Bool) (contents d : Disk) (n : Text) {e : CredentialError} {d' : Disk}
      → write_credentials creates broken removes directory contents d ≡ (some e, d')
      → Restored creates broken removes n d d'
  unfolding write_credentials
  write_credentials-err false contents d n h = inl (ground arith)
  write_credentials-err true contents d n {e} {d'} h =
      let start : OnlyNew [] d d = record {
        fresh = λ k l. unfold listed in absurd (ground arith);
        kept = λ k l. refl;
      } in
      let made = (reserve creates broken removes contents [] d).1 in
      let d1 = (reserve creates broken removes contents [] d).2 in
      let new = reserve-OnlyNew creates broken removes contents [] d d start in
      elim (Option-cases (reserve creates broken removes contents [] d).0) [
        | inr (x, refused) ↦
            (let same : remove_each creates broken removes made d1 ≡ d' = ground arith in
              subst (Restored creates broken removes n d) same
                (OnlyNew-Restored creates broken removes made d d1 n new))
        | inl all ↦
            let wrote =
              write_each-OnlyNew creates broken removes contents made d d1
                (reserve-Reserved creates broken removes contents [] d all) new in
            let d2 = (write_each creates broken removes contents d1).1 in
            elim (Option-cases (write_each creates broken removes contents d1).0) [
              | inr (x, failed) ↦
                  (let same : remove_each creates broken removes made d2 ≡ d' = ground arith in
                    subst (Restored creates broken removes n d) same
                      (OnlyNew-Restored creates broken removes made d d2 n wrote))
              | inl done ↦ absurd (ground arith)
            ]
      ]

  reserve-others :
      (contents : Disk) (made : List Text) (d : Disk) (n : Text)
      → find n contents ≡ none
      → find n (reserve creates broken removes contents made d).2 ≡ find n d
  unfolding reserve find
  reserve-others [] made d n h = refl
  reserve-others ((name, bytes) ∷ contents) made d n h = elim (Option-cases (find name d)) [
    | inr (bs, there) ↦ ground arith
    | inl free ↦ elim (Bool-cases (creates name)) [
      | inr refused ↦ ground arith
      | inl made_it ↦
          ground
            (arith, reserve-others contents (name ∷ made) (put name [] d) n, find-put name n [] d)
    ]
  ]

  write_each-ok :
      (contents d : Disk) (n : Text) {d' : Disk}
      → DistinctFiles contents
      → write_each creates broken removes contents d ≡ (none, d')
      → find n d' ≡ overlay (find n contents) (find n d)
  unfolding write_each find
  write_each-ok [] d n o e = ground arith
  write_each-ok ((name, bytes) ∷ contents) d n {d'} o e = elim (Option-cases (broken name)) [
    | inr (part, q) ↦ absurd (ground arith)
    | inl fine ↦
        let rest = write_each-ok contents (put name bytes d) n {d' = d'} o.1 (ground arith) in
        let now = find-put name n bytes d in
        elim (Bool-cases (same_bytes name n)) [
          | inr miss ↦ ground arith
          | inl hit ↦
              let same : name ≡ n = same_bytes→eq name n hit in
              let once : find n contents ≡ none = subst (λ k. find k contents ≡ none) same o.0 in
              ground arith
        ]
  ]

  -- A bundle of distinct names that is written has each of its files with its contents, and leaves
  -- every other file as it was.
  pub write_credentials-ok :
      (directory : Bool) (contents d : Disk) (n : Text) {d' : Disk}
      → DistinctFiles contents
      → write_credentials creates broken removes directory contents d ≡ (none, d')
      → find n d' ≡ overlay (find n contents) (find n d)
  unfolding write_credentials
  write_credentials-ok false contents d n o h = absurd (ground arith)
  write_credentials-ok true contents d n {d'} o h =
      let d1 = (reserve creates broken removes contents [] d).2 in
      elim (Option-cases (reserve creates broken removes contents [] d).0) [
        | inr (x, refused) ↦ absurd (ground arith)
        | inl all ↦ elim (Option-cases (write_each creates broken removes contents d1).0) [
          | inr (x, failed) ↦ absurd (ground arith)
          | inl done ↦
              let wrote = write_each-ok contents d1 n {d' = d'} o (ground arith) in
              elim (Option-cases (find n contents)) [
                | inl other ↦ ground (arith, reserve-others contents [] d n other)
                | inr (b, its) ↦ ground arith
              ]
        ]
      ]
