-- ===== src/Relay/Registry/Broker/Refinement.antt =====
-- internal/relay/registry.go: the registry does what the broker says, over any sequence of calls.
use ggrok.Prelude.{
  ℕ, suc, ◌≡◌, refl, ap, ◌∙◌, Bool, true, false, List, [], ◌∷◌, Option, none, some, Option-cases,
  Bool-cases, inl, inr, arith, ◌==◌,
}
use ggrok.Prelude.Maps.{lookup, erase, insert, erase_missing, erase-insert}
use ggrok.Relay.Session.{Session, Peer, new_session, add_subscriber, add_pending, claim_pending}
use ggrok.Relay.Registry.{
  Relay, Request, new_registry, session_for, set_session, take_slot, finish_register, register,
  unregister, release, finish_subscribe, subscribe, matching, kill_found, kill, finish_attach,
  attach_subscriber_data, finish_pairing, attach_publisher_data,
}
use ggrok.Relay.Registry.Register.{end_session-sessions}
use ggrok.Relay.Registry.Broker.{
  Call, registers, unregisters, subscribes, releases, kills, attaches_subscriber,
  attaches_publisher, member, remove, tagged, admits, kill_one, answer, answers, succeeded, call,
  calls, keys, seen,
}

keys-erase {ℓ} : {V : Type ℓ} (k : ℕ) (m : List (ℕ × V)) → keys (erase k m) ≡ remove k (keys m)
unfolding keys erase remove
keys-erase k [] = refl
keys-erase k ((j, v) ∷ m) = ground (arith, keys-erase k m)

pub member-keys {ℓ} :
    {V : Type ℓ} (k : ℕ) (m : List (ℕ × V))
    → member k (keys m) ≡ (elim (lookup k m) [ none ↦ false | some _ ↦ true ])
unfolding keys lookup member
member-keys k [] = refl
member-keys k ((j, v) ∷ m) = elim (Bool-cases (j == k)) [
  | inl hit ↦ ground arith
  | inr miss ↦ ground (arith, member-keys k m)
]

keys-matching : (tag : ℕ) (m : List (ℕ × ℕ)) → keys (matching tag m) ≡ tagged tag (keys m)
unfolding keys matching tagged
keys-matching tag [] = refl
keys-matching tag ((j, v) ∷ m) = ground (arith, keys-matching tag m)

-- The calls that leave the two maps alone.
abbrev Same : Relay → Relay → Type 0
Same r r' = (r'.sessions ≡ r.sessions) × (r'.killed ≡ r.killed)

seen-Same : (r r' : Relay) → Same r r' → seen r' ≡ seen r
unfolding seen
seen-Same r r' s = ground (arith, s.0, s.1)

release-Same : (ref id : ℕ) (r : Relay) → Same r (release ref id r)
unfolding release
release-Same ref id r = ground arith

finish_subscribe-Same :
    (conn ref : ℕ) (acked : Bool) (x : Option (ℕ × Session)) (r : Relay)
    → Same r (finish_subscribe conn ref acked x r).2
unfolding finish_subscribe
finish_subscribe-Same conn ref acked none r = ground arith
finish_subscribe-Same conn ref true (some (id, s)) r = ground arith
finish_subscribe-Same conn ref false (some (id, s)) r = release-Same ref id (set_session ref s r)

subscribe-Same :
    (c : Peer) (q : Request) (acked : Bool) (now : ℕ) (r : Relay)
    → Same r (subscribe c q acked now r).2
unfolding subscribe
subscribe-Same c q acked now r = elim (Option-cases (session_for q.session_id r)) [
  | inl gone ↦ ground arith
  | inr ((ref, s), live) ↦
      let taken = finish_subscribe-Same c.conn ref acked (add_subscriber c now s) r in ground arith
]

finish_attach-Same :
    (conn publisher ref port : ℕ) (acked asked : Bool) (x : Option (ℕ × Session)) (r : Relay)
    → Same r (finish_attach conn publisher ref port acked asked x r).2
unfolding finish_attach
finish_attach-Same conn publisher ref port acked asked none r = (refl, refl)
finish_attach-Same conn publisher ref port false asked (some (req, s)) r = (refl, refl)
finish_attach-Same conn publisher ref port true false (some (req, s)) r = (refl, refl)
finish_attach-Same conn publisher ref port true true (some (req, s)) r = (refl, refl)

finish_pairing-Same :
    (conn ref req now : ℕ) (x : Option (ℕ × ℕ) × Session) (r : Relay)
    → Same r (finish_pairing conn ref req now x r).2
unfolding finish_pairing
finish_pairing-Same conn ref req now (none, s) r = (refl, refl)
finish_pairing-Same conn ref req now (some (sub, port), s) r = ground arith

attach_subscriber_data-Same :
    (p : Peer) (id port : ℕ) (acked asked : Bool) (now : ℕ) (r : Relay)
    → Same r (attach_subscriber_data p id port acked asked now r).2
unfolding attach_subscriber_data
attach_subscriber_data-Same p id port acked asked now r = elim (Option-cases (session_for id r)) [
  | inl gone ↦ ground arith
  | inr ((ref, s), live) ↦
      let taken =
        finish_attach-Same p.conn s.publisher ref port acked asked (add_pending p port now s) r in
      ground arith
]

attach_publisher_data-Same :
    (id req : ℕ) (p : Peer) (now : ℕ) (r : Relay) → Same r (attach_publisher_data id req p now r).2
unfolding attach_publisher_data
attach_publisher_data-Same id req p now r = elim (Option-cases (session_for id r)) [
  | inl gone ↦ ground arith
  | inr ((ref, s), live) ↦
      let taken = finish_pairing-Same p.conn ref req now (claim_pending req s) r in
      elim (Option-cases p.cert) [ inl nobody ↦ ground arith | inr (cert, is) ↦ ground arith ]
]

register-answer :
    (c : Peer) (q : Request) (claimed acked : Bool) (now : ℕ) (r : Relay)
    → ((succeeded (register c q claimed acked now r)).0
        ≡ (answer (seen r) (registers c q claimed acked now)).0)
      × (seen (succeeded (register c q claimed acked now r)).1
          ≡ (answer (seen r) (registers c q claimed acked now)).1)
unfolding register take_slot finish_register answer admits succeeded seen keys insert
register-answer c q claimed acked now r =
    let dead = member-keys q.session_id r.killed in
    let live = member-keys q.session_id r.sessions in
    elim (Option-cases c.cert) [
      | inl nobody ↦ ground arith
      | inr (cert, is) ↦ elim (Bool-cases claimed) [
        | inr unproven ↦ ground arith
        | inl proven ↦ elim (Option-cases (lookup q.session_id r.killed)) [
          | inr (u, banned) ↦ ground arith
          | inl free ↦ elim (Option-cases (lookup q.session_id r.sessions)) [
            | inr (old, taken) ↦ ground arith
            | inl vacant ↦ elim (Bool-cases acked) [
              | inl sent ↦ ground (arith, erase_missing q.session_id r.sessions vacant)
              | inr lost ↦
                  let taken : Relay = record r {
                    heap = insert r.next_ref (new_session q.mode q.ports c.conn cert now) r.heap;
                    next_ref = suc r.next_ref;
                    sessions = erase q.session_id (insert q.session_id r.next_ref r.sessions);
                  } in
                  let kept = end_session-sessions r.next_ref taken in
                  let back : taken.sessions ≡ r.sessions =
                    erase-insert q.session_id r.next_ref r.sessions
                    ∙ erase_missing q.session_id r.sessions vacant in
                  ground arith
            ]
          ]
        ]
      ]
    ]

kill_found-answer :
    (found : List (ℕ × ℕ)) (r : Relay)
    → ((succeeded (kill_found found r)).0 ≡ (kill_one (seen r) (keys found)).0)
      × (seen (succeeded (kill_found found r)).1 ≡ (kill_one (seen r) (keys found)).1)
unfolding kill_found kill_one keys succeeded seen insert
kill_found-answer [] r = (refl, refl)
kill_found-answer (x ∷ y ∷ more) r = (refl, refl)
kill_found-answer ((id, ref) ∷ []) r =
    let r1 : Relay = record r { killed = insert id tt r.killed; sessions = erase id r.sessions } in
    let kept = end_session-sessions ref r1 in
    ground (arith, keys-erase id r.sessions, keys-erase id r.killed)

kill-answer :
    (tag : ℕ) (r : Relay)
    → ((succeeded (kill tag r)).0 ≡ (kill_one (seen r) (tagged tag (seen r).live)).0)
      × (seen (succeeded (kill tag r)).1 ≡ (kill_one (seen r) (tagged tag (seen r).live)).1)
unfolding kill seen
kill-answer tag r =
    rw (← keys-matching tag r.sessions)
      (unfold seen in kill_found-answer (matching tag r.sessions) r)

-- One call, and what the broker says of it.
pub call-answer :
    (r : Relay) (c : Call)
    → ((call r c).0 ≡ (answer (seen r) c).0) × (seen (call r c).1 ≡ (answer (seen r) c).1)
unfolding call answer
call-answer r (registers c q claimed acked now) =
    unfold answer in register-answer c q claimed acked now r
call-answer r (unregisters id ref) =
    let kept = end_session-sessions ref (record r { sessions = erase id r.sessions }) in
    (refl, unfold unregister seen in ground (arith, keys-erase id r.sessions))
call-answer r (subscribes c q acked now) = (refl, seen-Same r _ (subscribe-Same c q acked now r))
call-answer r (releases ref id) = (refl, seen-Same r _ (release-Same ref id r))
call-answer r (kills tag) = kill-answer tag r
call-answer r (attaches_subscriber p id port acked asked now) =
    (refl, seen-Same r _ (attach_subscriber_data-Same p id port acked asked now r))
call-answer r (attaches_publisher id req p now) =
    (refl, seen-Same r _ (attach_publisher_data-Same id req p now r))

pub calls-answers_from :
    (r : Relay) (cs : List Call)
    → ((calls r cs).0 ≡ (answers (seen r) cs).0) × (seen (calls r cs).1 ≡ (answers (seen r) cs).1)
unfolding calls answers
calls-answers_from r [] = (refl, refl)
calls-answers_from r (c ∷ cs) =
    let (same, now) = call-answer r c in
    let (rest, last) = calls-answers_from (call r c).1 cs in
    rw (← same, ← now) (ap (◌∷◌ (call r c).0) rest, last)

-- Over any sequence of calls of a new registry, Register and Kill succeed exactly when the broker
-- says so, and the live and the killed SessionIDs are those of the broker.
pub calls-answers :
    (cs : List Call)
    → ((calls new_registry cs).0 ≡ (answers (record { live = []; dead = [] }) cs).0)
      × (seen (calls new_registry cs).1 ≡ (answers (record { live = []; dead = [] }) cs).1)
unfolding seen keys
calls-answers cs = calls-answers_from new_registry cs
