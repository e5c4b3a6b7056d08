-- ===== src/Relay/Connections/Eviction.antt =====
-- internal/relay/connections.go: what the loop of closeMatchingAfterReply leaves and counts.
use ggrok.Prelude.{
  ℕ, suc, ◌+◌, ◌≡◌, refl, ap, Bool, true, false, List, [], ◌∷◌, Option, none, some, Option-cases,
  Bool-cases, length, ◌==◌, if◌then◌else◌, arith, inl, inr,
}
use ggrok.Prelude.Maps.{lookup, erase, lookup-erase, Distinct, erase_missing}
use ggrok.Relay.Connections.{
  ConnectionSet, evictable, is_reply, evict, close_matching_after_reply, finish,
}

-- Whether the loop takes an entry off the map.
abbrev pub gone : (ℕ → Bool) → Option ℕ → ℕ → Option ℕ → Bool
gone matches reply conn serial =
    if evictable matches serial then (if is_reply reply conn then false else true) else false

abbrev pub spare : Bool → Option ℕ → Option (Option ℕ)
spare g serial = if g then none else some serial

abbrev pub spared : (ℕ → Bool) → Option ℕ → ℕ → Option (Option ℕ) → Option (Option ℕ)
spared matches reply conn none = none
spared matches reply conn (some serial) = spare (gone matches reply conn serial) serial

pub evict-lookup :
    (matches : ℕ → Bool) (reply : Option ℕ) (conn : ℕ) (s : ConnectionSet)
    → Distinct s
    → lookup conn (evict matches reply s).rest ≡ spared matches reply conn (lookup conn s)
unfolding evict lookup
evict-lookup matches reply conn [] d = refl
evict-lookup matches reply conn ((c, x) ∷ s) d =
    let rest = evict-lookup matches reply conn s d.1 in
    elim (Bool-cases (c == conn)) [
      | inr miss ↦ elim (Bool-cases (evictable matches x)) [
        | inr spares ↦ ground arith
        | inl hunted ↦ elim (Bool-cases (is_reply reply c)) [
          | inl last ↦ ground arith
          | inr taken ↦ ground arith
        ]
      ]
      | inl hit ↦
          let same : c ≡ conn = ground arith in
          elim (Bool-cases (evictable matches x)) [
            | inr spares ↦ ground (arith, ap (is_reply reply) same)
            | inl hunted ↦ elim (Bool-cases (is_reply reply c)) [
              | inl last ↦ ground (arith, ap (is_reply reply) same)
              | inr taken ↦ ground (arith, ap (is_reply reply) same)
            ]
          ]
    ]

pub evict-length :
    (matches : ℕ → Bool) (reply : Option ℕ) (s : ConnectionSet)
    → length (evict matches reply s).conns + length (evict matches reply s).rest ≡ length s
unfolding evict
evict-length matches reply [] = refl
evict-length matches reply ((c, x) ∷ s) =
    let rest = evict-length matches reply s in
    elim (Bool-cases (evictable matches x)) [
      | inr spares ↦ ground arith
      | inl hunted ↦ elim (Bool-cases (is_reply reply c)) [
        | inl last ↦ ground arith
        | inr taken ↦ ground arith
      ]
    ]

pub evict-Distinct :
    (matches : ℕ → Bool) (reply : Option ℕ) (s : ConnectionSet)
    → Distinct s
    → Distinct (evict matches reply s).rest
unfolding evict
evict-Distinct matches reply [] d = tt
evict-Distinct matches reply ((c, x) ∷ s) d =
    let rest = evict-Distinct matches reply s d.1 in
    let absent = evict-lookup matches reply c s d.1 in
    elim (Bool-cases (evictable matches x)) [
      | inr spares ↦ ground arith
      | inl hunted ↦ elim (Bool-cases (is_reply reply c)) [
        | inl last ↦ ground arith
        | inr taken ↦ ground arith
      ]
    ]

-- The deferred socket is the one that asked, and it is matched as well.
evict-deferred :
    (matches : ℕ → Bool) (reply : Option ℕ) (conn : ℕ) (s : ConnectionSet) {serial : Option ℕ}
    → Distinct s
    → lookup conn s ≡ some serial
    → evictable matches serial ≡ true
    → is_reply reply conn ≡ true
    → (evict matches reply s).deferred ≡ some conn
unfolding evict lookup is_reply
evict-deferred matches reply conn [] d e m last = absurd (ground arith)
evict-deferred matches none conn s d e m last = absurd (ground arith)
evict-deferred matches (some reply) conn ((c, x) ∷ s) {serial} d e m last =
    elim (Bool-cases (c == conn)) [
      | inl hit ↦
          let same : x ≡ serial = ground arith in
          let yes : evictable matches x ≡ true = rw same m in ground arith
      | inr miss ↦
          let rest =
            evict-deferred matches (some reply) conn s {serial = serial} d.1 (ground arith) m
              last in
          elim (Bool-cases (evictable matches x)) [
            | inr spares ↦ ground arith
            | inl hunted ↦ ground arith
          ]
    ]

evict-deferred_held :
    (matches : ℕ → Bool) (reply : Option ℕ) (conn : ℕ) (s : ConnectionSet)
    → Distinct s
    → (evict matches reply s).deferred ≡ some conn
    → (serial : Option ℕ) × (lookup conn s ≡ some serial)
      × (evictable matches serial ≡ true)
      × (is_reply reply conn ≡ true)
unfolding evict lookup
evict-deferred_held matches reply conn [] d e = absurd (ground arith)
evict-deferred_held matches reply conn ((c, x) ∷ s) d e =
    let later : ((evict matches reply s).deferred ≡ some conn)
        → (serial : Option ℕ) × (lookup conn ((c, x) ∷ s) ≡ some serial)
          × (evictable matches serial ≡ true)
          × (is_reply reply conn ≡ true) =
      λ before.
        let (serial, held, m, last) = evict-deferred_held matches reply conn s d.1 before in
        elim (Bool-cases (c == conn)) [
          | inl hit ↦
              absurd
                (let same : c ≡ conn = ground arith in ground (arith, ap (λ k. lookup k s) same))
          | inr miss ↦ (serial, ground arith, m, last)
        ] in
    elim (Bool-cases (evictable matches x)) [
      | inr spares ↦ later (ground arith)
      | inl hunted ↦ elim (Bool-cases (is_reply reply c)) [
        | inr taken ↦ later (ground arith)
        | inl last ↦
            let same : c ≡ conn = ground arith in
            (x, ground arith, hunted, ground (arith, ap (is_reply reply) same))
      ]
    ]

length-erase_found :
    (k : ℕ) (s : ConnectionSet) {x : Option ℕ}
    → Distinct s
    → lookup k s ≡ some x
    → suc (length (erase k s)) ≡ length s
unfolding lookup erase
length-erase_found k [] d e = absurd (ground arith)
length-erase_found k ((c, y) ∷ s) {x} d e = elim (Bool-cases (c == k)) [
  | inl hit ↦
      let same : c ≡ k = ground arith in
      let absent : lookup k s ≡ none = rw same at d.0 in ground (arith, erase_missing k s)
  | inr miss ↦ ground (arith, length-erase_found k s {x = x} d.1)
]

-- A socket that an eviction leaves: it is not authenticated, or its serial does not match.
abbrev pub kept : (ℕ → Bool) → Option (Option ℕ) → Option (Option ℕ)
kept matches none = none
kept matches (some serial) = if evictable matches serial then none else some serial

-- If every socket is tracked once, then once the finish func of an eviction has run, the sockets
-- whose serial matches are gone, every other socket is as it was, and the number reported is how
-- many went.
pub close_matching_after_reply-finish :
    (matches : ℕ → Bool) (reply : Option ℕ) (s : ConnectionSet) {n : ℕ} {deferred : Option ℕ}
    {conns : List ℕ} {s1 : ConnectionSet}
    → Distinct s
    → close_matching_after_reply matches reply s ≡ (n, deferred, conns, s1)
    → ((conn : ℕ) → lookup conn (finish deferred s1).1 ≡ kept matches (lookup conn s))
      × (n + length (finish deferred s1).1 ≡ length s)
unfolding close_matching_after_reply finish
close_matching_after_reply-finish matches reply s {n} {deferred} {conns} {s1} d e =
    let rest : s1 ≡ (evict matches reply s).rest = ground arith in
    let held : deferred ≡ (evict matches reply s).deferred = ground arith in
    let all = evict-length matches reply s in
    elim (Option-cases deferred) [
      | inl alone ↦ (
        (λ conn.
            let was = evict-lookup matches reply conn s d in
            elim (Option-cases (lookup conn s)) [
              | inl absent ↦ ground arith
              | inr (x, there) ↦ elim (Bool-cases (evictable matches x)) [
                | inr stays ↦ ground arith
                | inl hunted ↦ elim (Bool-cases (is_reply reply conn)) [
                  | inr other ↦ ground arith
                  | inl last ↦
                      let must =
                        evict-deferred matches reply conn s {serial = x} d there hunted last in
                      absurd (ground arith)
                ]
              ]
            ]),
        ground arith,
      )
      | inr (c, its) ↦
          let (x, found, hit, last) = evict-deferred_held matches reply c s d (ground arith) in
          let still = evict-lookup matches reply c s d in
          let fewer =
            length-erase_found c s1 {x = x} (rw rest (evict-Distinct matches reply s d))
              (ground arith) in
          (
            (λ conn.
                let was = evict-lookup matches reply conn s d in
                let now = lookup-erase c conn s1 in
                elim (Bool-cases (c == conn)) [
                  | inl same ↦
                      let eq : c ≡ conn = ground arith in
                      let there : lookup conn s ≡ some x = rw eq at found in ground arith
                  | inr miss ↦ elim (Option-cases (lookup conn s)) [
                    | inl absent ↦ ground arith
                    | inr (y, there) ↦ elim (Bool-cases (evictable matches y)) [
                      | inr stays ↦ ground arith
                      | inl hunted ↦ elim (Bool-cases (is_reply reply conn)) [
                        | inr other ↦ ground arith
                        | inl too ↦
                            let must =
                              evict-deferred matches reply conn s {serial = y} d there hunted too in
                            absurd (ground arith)
                      ]
                    ]
                  ]
                ]),
            ground arith,
          )
    ]
