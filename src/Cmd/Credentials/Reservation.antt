-- ===== src/Cmd/Credentials/Reservation.antt =====
-- cmd/ggrok/credentials.go: between its start and its end, a bundle only makes new files.
use ggrok.Prelude.{
  ap, ◌⊎◌, ◌&&◌, ℕ, ◌≡◌, ◌∙◌, refl, sym, Bool, true, false, List, [], ◌∷◌, Option, none, some,
  Option-cases, Bool-cases, inl, inr, All, arith, if◌then◌else◌, same_bytes, same_bytes_refl,
  same_bytes→eq,
}
use mathlib.Core.Path.{subst}
use ggrok.Ca.Serials.{Text}
use ggrok.Ca.Files.{find, drop_file, put, find-drop_file}
use ggrok.Cmd.Credentials.{Disk, not_reserved, reserve, write_each, remove_each}

pub find-put :
    (n m : Text) (e : List ℕ) (d : Disk)
    → find m (put n e d) ≡ (if same_bytes n m then some e else find m d)
unfolding find put
find-put n m e d = ground (arith, find-drop_file n m d)

unfoldable pub listed : Text → List Text → Bool
listed n [] = false
listed n (m ∷ ms) = if same_bytes m n then true else listed n ms

-- Between a directory and a later one, only new files were made.
pub record OnlyNew (made : List Text) (d d' : Disk) : Type 0 where
  pub fresh : (n : Text) → listed n made ≡ true → find n d ≡ none
  pub kept : (n : Text) → listed n made ≡ false → find n d' ≡ find n d

module _ (creates : Text → Bool) (broken : Text → Option (List ℕ)) (removes : Text → Bool) where
  remove_each-find :
      (made : List Text) (d : Disk) (n : Text)
      → find n (remove_each creates broken removes made d)
        ≡ (if listed n made && removes n then none else find n d)
  unfolding remove_each listed
  remove_each-find [] d n = refl
  remove_each-find (m ∷ made) d n = elim (Bool-cases (same_bytes m n)) [
    | inr other ↦ ground (
      arith,
      remove_each-find made (if removes m then drop_file m d else d) n,
      find-drop_file m n d,
    )
    | inl hit ↦
        let same : m ≡ n = same_bytes→eq m n hit in
        let gone : removes m ≡ removes n = ap removes same in
        ground (
          arith,
          remove_each-find made (if removes m then drop_file m d else d) n,
          find-drop_file m n d,
        )
  ]

  -- A file is as it was, or a new one that could not be removed.
  abbrev pub Restored : Text → Disk → Disk → Type 0
  Restored n d d' = (find n d' ≡ find n d) ⊎ ((find n d ≡ none) × (removes n ≡ false))

  pub OnlyNew-Restored :
      (made : List Text) (d d' : Disk) (n : Text)
      → OnlyNew made d d'
      → Restored n d (remove_each creates broken removes made d')
  OnlyNew-Restored made d d' n o = elim (Bool-cases (listed n made)) [
    | inr old ↦ inl (ground (arith, remove_each-find made d' n, o.kept n old))
    | inl made_it ↦ elim (Bool-cases (removes n)) [
      | inl gone ↦ inl (ground (arith, remove_each-find made d' n, o.fresh n made_it))
      | inr stays ↦ inr (o.fresh n made_it, stays)
    ]
  ]

  OnlyNew-put :
      (made : List Text) (name : Text) (bytes : List ℕ) (d d' : Disk)
      → find name d' ≡ none
      → OnlyNew made d d'
      → OnlyNew (name ∷ made) d (put name bytes d')
  unfolding listed
  OnlyNew-put made name bytes d d' free o = record {
    fresh = λ n h. elim (Bool-cases (listed n made)) [
      | inl old ↦ o.fresh n old
      | inr new ↦
          let same : name ≡ n = same_bytes→eq name n (ground arith) in
          sym (o.kept n new) ∙ subst (λ k. find k d' ≡ none) same free
    ];
    kept = λ n h. ground (arith, find-put name n bytes d', o.kept n);
  }

  pub reserve-OnlyNew :
      (contents : Disk) (made : List Text) (d d' : Disk)
      → OnlyNew made d d'
      → OnlyNew
          (reserve creates broken removes contents made d').1
          d
          (reserve creates broken removes contents made d').2
  unfolding reserve
  reserve-OnlyNew [] made d d' o = o
  reserve-OnlyNew ((name, bytes) ∷ contents) made d d' o = elim (Option-cases (find name d')) [
    | inr (bs, there) ↦
        let same : reserve creates broken removes ((name, bytes) ∷ contents) made d'
            ≡ (some (not_reserved name), made, d') =
          ground arith in
        rw same o
    | inl free ↦ elim (Bool-cases (creates name)) [
      | inr refused ↦
          let same : reserve creates broken removes ((name, bytes) ∷ contents) made d'
              ≡ (some (not_reserved name), made, d') =
            ground arith in
          rw same o
      | inl made_it ↦
          let same : reserve creates broken removes ((name, bytes) ∷ contents) made d'
              ≡ reserve creates broken removes contents (name ∷ made) (put name [] d') =
            ground arith in
          rw same (
            reserve-OnlyNew contents (name ∷ made) d (put name [] d')
              (OnlyNew-put made name [] d d' free o))
    ]
  ]

  -- A file that is written is one that was reserved.
  OnlyNew-write :
      (made : List Text) (name : Text) (bytes : List ℕ) (d d' : Disk)
      → listed name made ≡ true
      → OnlyNew made d d'
      → OnlyNew made d (put name bytes d')
  OnlyNew-write made name bytes d d' its o = record {
    fresh = o.fresh;
    kept = λ n h. elim (Bool-cases (same_bytes name n)) [
      | inl hit ↦
          let same : name ≡ n = same_bytes→eq name n hit in
          absurd (
            let both : listed n made ≡ true = subst (λ k. listed k made ≡ true) same its in
            ground arith)
      | inr miss ↦ ground (arith, find-put name n bytes d', o.kept n h)
    ];
  }

  abbrev pub Reserved : List Text → Text × List ℕ → Type 0
  Reserved made e = listed e.0 made ≡ true

  pub write_each-OnlyNew :
      (contents : Disk) (made : List Text) (d d' : Disk)
      → All (Reserved made) contents
      → OnlyNew made d d'
      → OnlyNew made d (write_each creates broken removes contents d').1
  unfolding write_each
  write_each-OnlyNew [] made d d' its o = o
  write_each-OnlyNew ((name, bytes) ∷ contents) made d d' its o =
      elim (Option-cases (broken name)) [
        | inr (part, q) ↦
            let same : (write_each creates broken removes ((name, bytes) ∷ contents) d').1
                ≡ put name part d' =
              ground arith in
            rw same (OnlyNew-write made name part d d' its.0 o)
        | inl fine ↦
            let same : write_each creates broken removes ((name, bytes) ∷ contents) d'
                ≡ write_each creates broken removes contents (put name bytes d') =
              ground arith in
            rw same (
              write_each-OnlyNew contents made d (put name bytes d') its.1
                (OnlyNew-write made name bytes d d' its.0 o))
      ]

  reserve-listed :
      (contents : Disk) (made : List Text) (d : Disk) (n : Text)
      → listed n made ≡ true
      → listed n (reserve creates broken removes contents made d).1 ≡ true
  unfolding reserve listed
  reserve-listed [] made d n h = h
  reserve-listed ((name, bytes) ∷ contents) made d n h = elim (Option-cases (find name d)) [
    | inr (bs, there) ↦ ground arith
    | inl free ↦ elim (Bool-cases (creates name)) [
      | inr refused ↦ ground arith
      | inl made_it ↦
          ground (arith, reserve-listed contents (name ∷ made) (put name [] d) n (ground arith))
    ]
  ]

  pub reserve-Reserved :
      (contents : Disk) (made : List Text) (d : Disk)
      → (reserve creates broken removes contents made d).0 ≡ none
      → All (Reserved (reserve creates broken removes contents made d).1) contents
  unfolding reserve
  reserve-Reserved [] made d e = tt
  reserve-Reserved ((name, bytes) ∷ contents) made d e = elim (Option-cases (find name d)) [
    | inr (bs, there) ↦ absurd (ground arith)
    | inl free ↦ elim (Bool-cases (creates name)) [
      | inr refused ↦ absurd (ground arith)
      | inl made_it ↦
          let same : reserve creates broken removes ((name, bytes) ∷ contents) made d
              ≡ reserve creates broken removes contents (name ∷ made) (put name [] d) =
            ground arith in
          let here =
            reserve-listed contents (name ∷ made) (put name [] d) name
              (unfold listed in ground (arith, same_bytes_refl name)) in
          subst (λ r. All (Reserved r.1) ((name, bytes) ∷ contents)) (sym same)
            (here, reserve-Reserved contents (name ∷ made) (put name [] d) (ground arith))
    ]
  ]
