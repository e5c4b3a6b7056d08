-- ===== src/Relay/Registry/Broker/Killed.antt =====
-- internal/relay/registry.go: a killed SessionID stays killed, by the broker that the registry refines.
use ggrok.Prelude.{
  ℕ, ◌≡◌, ◌∙◌, Bool, true, false, List, [], ◌∷◌, none, some, Option-cases, Bool-cases, inl, inr,
  arith, ◌==◌, if◌then◌else◌,
}
use ggrok.Prelude.Maps.{lookup}
use ggrok.Relay.Session.{Peer}
use ggrok.Relay.Registry.{Relay, Request, new_registry}
use ggrok.Relay.Registry.Broker.{
  Broker, Call, registers, unregisters, subscribes, releases, kills, attaches_subscriber,
  attaches_publisher, member, remove, tagged, admits, kill_one, answer, answers, call, calls, keys,
  seen,
}
use ggrok.Relay.Registry.Broker.Refinement.{member-keys, call-answer, calls-answers_from}

member-remove :
    (k j : ℕ) (js : List ℕ) → member k (remove j js) ≡ (if j == k then false else member k js)
unfolding member remove
member-remove k j [] = ground arith
member-remove k j (i ∷ js) = ground (arith, member-remove k j js)

kill_one-dead :
    (id : ℕ) (b : Broker) (found : List ℕ)
    → member id b.dead ≡ true
    → member id (kill_one b found).1.dead ≡ true
unfolding kill_one member
kill_one-dead id b [] h = h
kill_one-dead id b (x ∷ y ∷ more) h = h
kill_one-dead id b (x ∷ []) h = ground (arith, member-remove id x b.dead)

answer-dead :
    (id : ℕ) (b : Broker) (c : Call)
    → member id b.dead ≡ true
    → member id (answer b c).1.dead ≡ true
unfolding answer
answer-dead id b (registers c q claimed acked now) h = ground arith
answer-dead id b (unregisters x ref) h = h
answer-dead id b (subscribes c q acked now) h = h
answer-dead id b (releases ref x) h = h
answer-dead id b (kills tag) h = kill_one-dead id b (tagged tag b.live) h
answer-dead id b (attaches_subscriber p x port acked asked now) h = h
answer-dead id b (attaches_publisher x req p now) h = h

answers-dead :
    (id : ℕ) (b : Broker) (cs : List Call)
    → member id b.dead ≡ true
    → member id (answers b cs).1.dead ≡ true
unfolding answers
answers-dead id b [] h = h
answers-dead id b (c ∷ cs) h = answers-dead id (answer b c).1 cs (answer-dead id b c h)

-- Once a SessionID is killed, a Register of it fails after any further calls.
pub calls-killed :
    (r : Relay) (cs : List Call) (c : Peer) (q : Request) (claimed acked : Bool) (now : ℕ)
    → lookup q.session_id r.killed ≡ some tt
    → (call (calls r cs).1 (registers c q claimed acked now)).0 ≡ some false
calls-killed r cs c q claimed acked now h =
    let last = (calls r cs).1 in
    let seen_dead : member q.session_id (seen r).dead ≡ true =
      unfold seen in ground (arith, member-keys q.session_id r.killed) in
    let dead : member q.session_id (seen last).dead ≡ true =
      rw (calls-answers_from r cs).1 (answers-dead q.session_id (seen r) cs seen_dead) in
    (call-answer last (registers c q claimed acked now)).0
    ∙ (unfold answer admits in
        elim (Option-cases c.cert) [ inl nobody ↦ ground arith | inr (cert, is) ↦ ground arith ])

-- Nothing that was killed is live.
IsApart : Broker → Type 0
IsApart b = (id : ℕ) → member id b.dead ≡ true → member id b.live ≡ false

kill_one-IsApart : (b : Broker) (found : List ℕ) → IsApart b → IsApart (kill_one b found).1
unfolding IsApart kill_one member
kill_one-IsApart b [] h = h
kill_one-IsApart b (x ∷ y ∷ more) h = h
kill_one-IsApart b (x ∷ []) h =
    λ id dead. ground (arith, h id, member-remove id x b.dead, member-remove id x b.live)

register-IsApart :
    (b : Broker) (c : Peer) (q : Request) (claimed acked : Bool) (now : ℕ)
    → IsApart b
    → IsApart (answer b (registers c q claimed acked now)).1
unfolding IsApart answer admits member
register-IsApart b c q claimed acked now h id dead =
    let before = h id in
    elim (Bool-cases (admits b c q claimed)) [
      | inr refused ↦ ground arith
      | inl let_in ↦ elim (Option-cases c.cert) [
        | inl nobody ↦ absurd (ground arith)
        | inr (cert, is) ↦ elim (Bool-cases (q.session_id == id)) [
          | inr other ↦ ground arith
          | inl same ↦
              let eq : q.session_id ≡ id = ground arith in
              let was : member id b.dead ≡ true = ground arith in
              let its : member q.session_id b.dead ≡ true = rw eq was in absurd (ground arith)
        ]
      ]
    ]

answer-IsApart : (b : Broker) (c : Call) → IsApart b → IsApart (answer b c).1
unfolding IsApart answer
answer-IsApart b (registers c q claimed acked now) h =
    unfold answer IsApart in register-IsApart b c q claimed acked now h
answer-IsApart b (unregisters x ref) h = λ id dead. ground (arith, h id, member-remove id x b.live)
answer-IsApart b (subscribes c q acked now) h = h
answer-IsApart b (releases ref x) h = h
answer-IsApart b (kills tag) h = kill_one-IsApart b (tagged tag b.live) h
answer-IsApart b (attaches_subscriber p x port acked asked now) h = h
answer-IsApart b (attaches_publisher x req p now) h = h

answers-IsApart : (b : Broker) (cs : List Call) → IsApart b → IsApart (answers b cs).1
unfolding answers
answers-IsApart b [] h = h
answers-IsApart b (c ∷ cs) h = answers-IsApart (answer b c).1 cs (answer-IsApart b c h)

-- Over any sequence of calls of a new registry, no killed SessionID has a session.
pub calls-apart :
    (cs : List Call) (id : ℕ)
    → lookup id (calls new_registry cs).1.killed ≡ some tt
    → lookup id (calls new_registry cs).1.sessions ≡ none
unfolding IsApart
calls-apart cs id h =
    let last = (calls new_registry cs).1 in
    let start : IsApart (seen new_registry) = λ k dead. unfold seen keys member in ground arith in
    let apart : IsApart (seen last) =
      rw (calls-answers_from new_registry cs).1 (answers-IsApart (seen new_registry) cs start) in
    let dead : member id (seen last).dead ≡ true =
      unfold seen in ground (arith, member-keys id last.killed) in
    let gone : member id (keys last.sessions) ≡ false = unfold seen in apart id dead in
    elim (Option-cases (lookup id last.sessions)) [
      | inl free ↦ free
      | inr (ref, live) ↦ absurd (ground (arith, member-keys id last.sessions))
    ]
