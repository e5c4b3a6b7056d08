-- ===== src/Relay/Connections/Policy.antt =====
-- internal/relay/connections.go over any sequence of calls: the capacity limit and the revocations.
use ggrok.Prelude.{
  ℕ, ◌≤◌, ◌≡◌, ◌≢◌, refl, Bool, true, false, List, [], ◌∷◌, Option, none, some, Option-cases,
  Bool-cases, length, leb, ◌==◌, arith, inl, inr,
}
use ggrok.Prelude.Maps.{
  lookup, insert, lookup-erase, lookup-insert, Distinct, erase-Distinct, insert-Distinct,
  length-erase-le, length-insert-le, length-erase-lt,
}
use ggrok.Relay.Connections.{
  max_connections, ConnectionSet, track, authenticate, evictable, is_reply, evict,
  close_matching_after_reply, finish, close_all, close,
}
use ggrok.Relay.Connections.Eviction.{
  evict-lookup, evict-length, evict-Distinct, close_matching_after_reply-finish,
}

pub data Call : Type 0 where
  tracks : ℕ → Call
  authenticates : Option ℕ → Option ℕ → Call
  evicts : (ℕ → Bool) → Option ℕ → Call
  finishes : Option ℕ → Call
  closes : ℕ → Call
  closes_all : Call

-- One call; `revoked` is the set that authenticate consults.
unfoldable pub step : (ℕ → Bool) → ConnectionSet → Call → ConnectionSet
step revoked s (tracks conn) = (track conn s).1
step revoked s (authenticates conn serial) = (authenticate conn serial revoked s).1
step revoked s (evicts matches reply) = (close_matching_after_reply matches reply s).3
step revoked s (finishes deferred) = (finish deferred s).1
step revoked s (closes conn) = close conn s
step revoked s closes_all = (close_all s).1

unfoldable pub run : (ℕ → Bool) → ConnectionSet → List Call → ConnectionSet
run revoked s [] = s
run revoked s (c ∷ cs) = run revoked (step revoked s c) cs

record IsBounded (s : ConnectionSet) : Type 0 where
  distinct : Distinct s
  bound : length s ≤ max_connections

length-insert_found :
    (k : ℕ) (v : Option ℕ) (s : ConnectionSet) {x : Option ℕ}
    → lookup k s ≡ some x
    → length (insert k v s) ≤ length s
unfolding insert
length-insert_found k v s {x} e = omega (arith, length-erase-lt k s {v = x} e)

-- What authenticate does to the set: nothing, or a serial that is not revoked on a tracked socket.
data Authenticated (revoked : ℕ → Bool) (s s' : ConnectionSet) : Type 0 where
  rejected : s' ≡ s → Authenticated revoked s s'
  admitted :
      (conn serial : ℕ) (old : Option ℕ)
      → lookup conn s ≡ some old
      → revoked serial ≡ false
      → s' ≡ insert conn (some serial) s
      → Authenticated revoked s s'

authenticate-cases :
    (conn serial : Option ℕ) (revoked : ℕ → Bool) (s : ConnectionSet)
    → Authenticated revoked s (authenticate conn serial revoked s).1
unfolding authenticate
authenticate-cases none serial revoked s = rejected refl
authenticate-cases (some conn) none revoked s = rejected refl
authenticate-cases (some conn) (some serial) revoked s = elim (Option-cases (lookup conn s)) [
  | inl gone ↦ rejected (ground arith)
  | inr (old, held) ↦ elim (Bool-cases (revoked serial)) [
    | inl banned ↦ rejected (ground arith)
    | inr fine ↦ admitted conn serial old held fine (ground arith)
  ]
]

authenticate-IsBounded :
    (revoked : ℕ → Bool) (s s' : ConnectionSet)
    → IsBounded s
    → Authenticated revoked s s'
    → IsBounded s'
authenticate-IsBounded revoked s s' b (rejected same) = rw same b
authenticate-IsBounded revoked s s' b (admitted conn serial old held fine same) = rw same record {
  distinct = insert-Distinct conn (some serial) s b.distinct;
  bound = omega (arith, length-insert_found conn (some serial) s {x = old} held, b.bound);
}

step-IsBounded :
    (revoked : ℕ → Bool) (s : ConnectionSet) (c : Call) → IsBounded s → IsBounded (step revoked s c)
unfolding step track close_matching_after_reply finish close close_all
step-IsBounded revoked s (tracks conn) b = elim (Bool-cases (leb max_connections (length s))) [
  | inl full ↦ let same : (track conn s).1 ≡ s = ground arith in rw same b
  | inr room ↦
      let same : (track conn s).1 ≡ insert conn none s = ground arith in
      rw same record {
        distinct = insert-Distinct conn none s b.distinct;
        bound = ground (arith, length-insert-le conn none s);
      }
]
step-IsBounded revoked s (authenticates conn serial) b =
    authenticate-IsBounded revoked s _ b (authenticate-cases conn serial revoked s)
step-IsBounded revoked s (evicts matches reply) b = record {
  distinct = evict-Distinct matches reply s b.distinct;
  bound = omega (arith, evict-length matches reply s, b.bound);
}
step-IsBounded revoked s (finishes none) b = b
step-IsBounded revoked s (finishes (some conn)) b = record {
  distinct = erase-Distinct conn s b.distinct;
  bound = omega (arith, length-erase-le conn s, b.bound);
}
step-IsBounded revoked s (closes conn) b = record {
  distinct = erase-Distinct conn s b.distinct;
  bound = omega (arith, length-erase-le conn s, b.bound);
}
step-IsBounded revoked s closes_all b = record { distinct = tt; bound = omega arith }

run-IsBounded :
    (revoked : ℕ → Bool) (s : ConnectionSet) (cs : List Call)
    → IsBounded s
    → IsBounded (run revoked s cs)
unfolding run
run-IsBounded revoked s [] b = b
run-IsBounded revoked s (c ∷ cs) b =
    run-IsBounded revoked (step revoked s c) cs (step-IsBounded revoked s c b)

-- No socket holds a revoked serial.
abbrev IsClean : (ℕ → Bool) → ConnectionSet → Type 0
IsClean revoked s = (conn serial : ℕ) → lookup conn s ≡ some (some serial) → revoked serial ≡ false

authenticate-IsClean :
    (revoked : ℕ → Bool) (s s' : ConnectionSet)
    → IsClean revoked s
    → Authenticated revoked s s'
    → IsClean revoked s'
authenticate-IsClean revoked s s' c (rejected same) = rw same c
authenticate-IsClean revoked s s' c (admitted conn serial old held fine same) = λ k x e.
    let put = lookup-insert conn k (some serial) s in
    let there : lookup k (insert conn (some serial) s) ≡ some (some x) = rw same at e in
    elim (Bool-cases (conn == k)) [ inl hit ↦ ground arith | inr miss ↦ c k x (ground arith) ]

evict-keeps :
    (matches : ℕ → Bool) (reply : Option ℕ) (conn : ℕ) (s : ConnectionSet) (serial : ℕ)
    → Distinct s
    → lookup conn (evict matches reply s).rest ≡ some (some serial)
    → lookup conn s ≡ some (some serial)
evict-keeps matches reply conn s serial d e =
    let was = evict-lookup matches reply conn s d in
    elim (Option-cases (lookup conn s)) [
      | inl absent ↦ absurd (ground arith)
      | inr (x, there) ↦ elim (Bool-cases (evictable matches x)) [
        | inr stays ↦ ground arith
        | inl hunted ↦ elim (Bool-cases (is_reply reply conn)) [
          | inr other ↦ absurd (ground arith)
          | inl last ↦ ground arith
        ]
      ]
    ]

step-IsClean :
    (revoked : ℕ → Bool) (s : ConnectionSet) (c : Call)
    → IsBounded s
    → IsClean revoked s
    → IsClean revoked (step revoked s c)
unfolding step track close_matching_after_reply finish close close_all
step-IsClean revoked s (tracks conn) b c = λ k x e.
    elim (Bool-cases (leb max_connections (length s))) [
      | inl full ↦ c k x (ground arith)
      | inr room ↦ c k x (ground (arith, lookup-insert conn k none s))
    ]
step-IsClean revoked s (authenticates conn serial) b c =
    authenticate-IsClean revoked s _ c (authenticate-cases conn serial revoked s)
step-IsClean revoked s (evicts matches reply) b c =
    λ k x e. c k x (evict-keeps matches reply k s x b.distinct e)
step-IsClean revoked s (finishes none) b c = c
step-IsClean revoked s (finishes (some conn)) b c =
    λ k x e. c k x (ground (arith, lookup-erase conn k s))
step-IsClean revoked s (closes conn) b c = λ k x e. c k x (ground (arith, lookup-erase conn k s))
step-IsClean revoked s closes_all b c = λ k x e. absurd (unfold lookup in ground arith)

run-IsClean :
    (revoked : ℕ → Bool) (s : ConnectionSet) (cs : List Call)
    → IsBounded s
    → IsClean revoked s
    → IsClean revoked (run revoked s cs)
unfolding run
run-IsClean revoked s [] b c = c
run-IsClean revoked s (x ∷ cs) b c =
    run-IsClean revoked (step revoked s x) cs (step-IsBounded revoked s x b)
      (step-IsClean revoked s x b c)

-- After any calls on an empty set, relay tracks at most maxConnections sockets, and none of them
-- twice.
pub run-bound :
    (revoked : ℕ → Bool) (cs : List Call)
    → (length (run revoked [] cs) ≤ max_connections) × Distinct (run revoked [] cs)
run-bound revoked cs =
    let b = run-IsBounded revoked [] cs (record { distinct = tt; bound = omega arith }) in
    (b.bound, b.distinct)

-- However the set was used before, once an eviction of the revoked serials and its finish func are
-- through, no socket has a revoked serial after any further calls that consult the new
-- revocations.
pub run-revoked :
    (old revoked : ℕ → Bool) (reply : Option ℕ) (before after : List Call) (conn serial : ℕ) {n : ℕ}
    {deferred : Option ℕ} {conns : List ℕ} {s1 : ConnectionSet}
    → close_matching_after_reply revoked reply (run old [] before) ≡ (n, deferred, conns, s1)
    → revoked serial ≡ true
    → lookup conn (run revoked (finish deferred s1).1 after) ≢ some (some serial)
run-revoked old revoked reply before after conn serial {n} {deferred} {conns} {s1} e banned there =
    let s : ConnectionSet = run old [] before in
    let b = run-IsBounded old [] before (record { distinct = tt; bound = omega arith }) in
    let (rest, count) = close_matching_after_reply-finish revoked reply s b.distinct e in
    let clean : IsClean revoked (finish deferred s1).1 = λ k x held.
      let was = rest k in
      elim (Option-cases (lookup k s)) [
        | inl none_there ↦ absurd (ground arith)
        | inr (y, q) ↦ unfold evictable in ground arith
      ] in
    let b1 : IsBounded s1 =
      let same : s1 ≡ step old s (evicts revoked reply) = unfold step in ground arith in
      rw same (step-IsBounded old s (evicts revoked reply) b) in
    let b2 : IsBounded (finish deferred s1).1 =
      unfold step in step-IsBounded old s1 (finishes deferred) b1 in
    let never = run-IsClean revoked (finish deferred s1).1 after b2 clean conn serial there in
    ground arith
