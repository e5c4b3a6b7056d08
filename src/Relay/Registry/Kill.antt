-- ===== src/Relay/Registry/Kill.antt =====
-- internal/relay/registry.go: lemmas on Kill.
use ggrok.Prelude.{
  ℕ, ◌≡◌, ◌≢◌, refl, ap, inl, inr, Bool, true, List, [], ◌∷◌, none, some, Bool-cases, List-cases,
  ok, err, arith, ◌==◌, if◌then◌else◌,
}
use ggrok.Prelude.Maps.{lookup, erase, insert, lookup-insert, lookup-erase, Distinct}
use ggrok.Proto.Hello.{ack_denied}
use ggrok.Relay.Session.{Peer}
use ggrok.Relay.Registry.{
  Relay, Event, acks, Request, log_tag, matching, kill_found, kill, register, take_slot,
  finish_register, session_killed, no_such_session, ambiguous_tag,
}
use ggrok.Relay.Registry.Register.{end_session-sessions}

-- The loop of Kill finds exactly the sessions of the tag.
matching_all :
    (tag id ref : ℕ) (m : List (ℕ × ℕ))
    → Distinct m
    → lookup id m ≡ some ref
    → log_tag id ≡ tag
    → lookup id (matching tag m) ≡ some ref
unfolding matching lookup
matching_all tag id ref [] d e t = absurd (ground arith)
matching_all tag id ref ((j, x) ∷ m) d e t = elim (Bool-cases (j == id)) [
  | inl hit ↦ ground arith
  | inr miss ↦ ground (arith, matching_all tag id ref m d.1)
]

matching_sound :
    (tag id ref : ℕ) (m : List (ℕ × ℕ))
    → Distinct m
    → lookup id (matching tag m) ≡ some ref
    → (log_tag id ≡ tag) × (lookup id m ≡ some ref)
unfolding matching lookup
matching_sound tag id ref [] d e = absurd (ground arith)
matching_sound tag id ref ((j, x) ∷ m) d e = elim (Bool-cases (log_tag j == tag)) [
  | inl fits ↦ elim (Bool-cases (j == id)) [
    | inl hit ↦ ground arith
    | inr miss ↦ ground (arith, matching_sound tag id ref m d.1)
  ]
  | inr other ↦
      let (t, e') = matching_sound tag id ref m d.1 (ground arith) in
      let ne : j ≢ id = λ same. ground (arith, ap log_tag same) in ground arith
]

kill_found-ok :
    (found : List (ℕ × ℕ)) (r : Relay) {n : ℕ} {events : List Event} {r' : Relay}
    → kill_found found r ≡ (ok n, events, r')
    → (id ref : ℕ) × (found ≡ (id, ref) ∷ [])
      × (lookup id r'.killed ≡ some tt)
      × (r'.sessions ≡ erase id r.sessions)
unfolding kill_found
kill_found-ok [] r e = absurd (ground arith)
kill_found-ok (x ∷ y ∷ more) r e = absurd (ground arith)
kill_found-ok ((id, ref) ∷ []) r e =
    let r1 : Relay = record r { killed = insert id tt r.killed; sessions = erase id r.sessions } in
    let kept = end_session-sessions ref r1 in
    (id, ref, refl, ground (arith, lookup-insert id id tt r.killed), ground arith)

single : (j x id ref : ℕ) → lookup j ((id, ref) ∷ []) ≡ some x → j ≡ id
unfolding lookup
single j x id ref h = ground arith

-- If every SessionID is bound once, a Kill that succeeds found a session of that tag: it is gone
-- from the registry, and every other SessionID is as it was.
pub kill-ok :
    (tag : ℕ) (r : Relay) {n : ℕ} {events : List Event} {r' : Relay}
    → Distinct r.sessions
    → kill tag r ≡ (ok n, events, r')
    → (id ref : ℕ) × (log_tag id ≡ tag)
      × (lookup id r.sessions ≡ some ref)
      × ((j : ℕ) → lookup j r'.sessions ≡ (if id == j then none else lookup j r.sessions))
unfolding kill
kill-ok tag r {n} {events} {r'} d e =
    let (id, ref, one, banned, kept) = kill_found-ok (matching tag r.sessions) r e in
    let only : lookup id (matching tag r.sessions) ≡ some ref =
      rw one (unfold lookup in ground arith) in
    let (t, live) = matching_sound tag id ref r.sessions d only in
    (id, ref, t, live, λ j. rw kept (lookup-erase id j r.sessions))

-- After a Kill that succeeds, if every SessionID was bound once, a publisher who proves a session
-- that had that tag is denied, and nothing changes.
pub register-kill :
    (tag ref cert now : ℕ) (c : Peer) (q : Request) (acked : Bool) (r : Relay) {n : ℕ}
    {events : List Event} {r' : Relay}
    → Distinct r.sessions
    → kill tag r ≡ (ok n, events, r')
    → lookup q.session_id r.sessions ≡ some ref
    → log_tag q.session_id ≡ tag
    → c.cert ≡ some cert
    → register c q true acked now r' ≡ (err session_killed, acks c.conn ack_denied ∷ [], r')
unfolding kill
register-kill tag ref cert now c q acked r {n} {events} {r'} d e live fits is =
    let (id, x, one, banned, kept) = kill_found-ok (matching tag r.sessions) r e in
    let found = matching_all tag q.session_id ref r.sessions d live fits in
    let same : q.session_id ≡ id = single q.session_id ref id x (rw one at found) in
    let gone : lookup q.session_id r'.killed ≡ some tt = rw same banned in
    unfold register take_slot finish_register in ground arith

-- Kill refuses a tag that no session has, and does nothing then.
kill-unknown :
    (tag : ℕ) (r : Relay)
    → Distinct r.sessions
    → ((j x : ℕ) → lookup j r.sessions ≡ some x → log_tag j ≢ tag)
    → kill tag r ≡ (err no_such_session, [], r)
unfolding kill kill_found
kill-unknown tag r d nobody = elim (List-cases (matching tag r.sessions)) [
  | inl nil ↦ ground arith
  | inr ((id, ref), more, e) ↦
      let first : lookup id (matching tag r.sessions) ≡ some ref =
        rw e (unfold lookup in ground arith) in
      let (t, live) = matching_sound tag id ref r.sessions d first in absurd (nobody id ref live t)
]

-- If every SessionID is bound once, Kill refuses a tag that two of them share, and does nothing.
kill-ambiguous :
    (tag j x k y : ℕ) (r : Relay)
    → Distinct r.sessions
    → lookup j r.sessions ≡ some x
    → lookup k r.sessions ≡ some y
    → log_tag j ≡ tag
    → log_tag k ≡ tag
    → j ≢ k
    → kill tag r ≡ (err ambiguous_tag, [], r)
unfolding kill kill_found
kill-ambiguous tag j x k y r d hj hk tj tk other =
    let fj = matching_all tag j x r.sessions d hj tj in
    let fk = matching_all tag k y r.sessions d hk tk in
    elim (List-cases (matching tag r.sessions)) [
      | inl nil ↦ absurd (unfold lookup in ground arith)
      | inr ((id, ref), more, e) ↦ elim (List-cases more) [
        | inl one ↦ absurd (unfold lookup in ground arith)
        | inr (b, rest, e') ↦ ground arith
      ]
    ]
