-- ===== src/Relay/Session/Certs.antt =====
-- internal/relay/session.go: the subscribers of one certificate, which subscriberCerts counts.
use ggrok.Prelude.{
  ℕ, ◌+◌, ◌-◌, ◌<◌, ◌≡◌, List, [], ◌∷◌, none, some, arith, ◌==◌, if◌then◌else◌, Bool-cases, inl,
  inr,
}
use ggrok.Prelude.Maps.{lookup, erase, insert, lookup-erase, lookup-insert, Distinct, erase_missing}
use ggrok.Relay.Session.{Subscriber, count_at, release_cert}

unfoldable pub holders : ℕ → List (ℕ × Subscriber) → ℕ
holders key [] = 0
holders key ((id, sub) ∷ m) = (if sub.cert_key == key then 1 else 0) + holders key m

pub holders-insert :
    (key id : ℕ) (sub : Subscriber) (m : List (ℕ × Subscriber))
    → lookup id m ≡ none
    → holders key (insert id sub m) ≡ (if sub.cert_key == key then 1 else 0) + holders key m
unfolding holders insert
holders-insert key id sub m e = rw (erase_missing id m e)

pub holders-erase :
    (key id : ℕ) (m : List (ℕ × Subscriber)) {sub : Subscriber}
    → Distinct m
    → lookup id m ≡ some sub
    → holders key m ≡ (if sub.cert_key == key then 1 else 0) + holders key (erase id m)
unfolding holders lookup erase
holders-erase key id [] d e = absurd (ground arith)
holders-erase key id ((j, x) ∷ m) {sub} d e = elim (Bool-cases (j == id)) [
  | inl hit ↦ ground (arith, erase_missing id m)
  | inr miss ↦ ground (arith, holders-erase key id m {sub = sub} d.1)
]

-- A count is positive exactly if a subscriber of that certificate is there.
pub holders-pos :
    (key : ℕ) (m : List (ℕ × Subscriber))
    → Distinct m
    → 0 < holders key m
    → (id : ℕ) × (sub : Subscriber) × (lookup id m ≡ some sub) × (sub.cert_key ≡ key)
unfolding holders lookup
holders-pos key [] d h = absurd (omega arith)
holders-pos key ((j, x) ∷ m) d h = elim (Bool-cases (x.cert_key == key)) [
  | inl its ↦ (j, x, ground arith, ground arith)
  | inr other ↦
      let (id, sub, e, same) = holders-pos key m d.1 (ground arith) in
      (
        id,
        sub,
        elim (Bool-cases (j == id)) [
          | inl hit ↦
              let here : j ≡ id = ground arith in
              let gone : lookup id m ≡ none = rw (← here) d.0 in absurd (ground arith)
          | inr miss ↦ rw miss e
        ],
        same,
      )
]

pub count_at-insert :
    (key k n : ℕ) (certs : List (ℕ × ℕ))
    → count_at k (insert key n certs) ≡ (if key == k then n else count_at k certs)
count_at-insert key k n certs = ground (arith, lookup-insert key k n certs)

pub count_at-release_cert :
    (key k : ℕ) (certs : List (ℕ × ℕ))
    → count_at k (release_cert key certs)
      ≡ (if key == k then count_at key certs - 1 else count_at k certs)
unfolding release_cert
count_at-release_cert key k certs =
    ground (arith, lookup-erase key k certs, lookup-insert key k (count_at key certs - 1) certs)
