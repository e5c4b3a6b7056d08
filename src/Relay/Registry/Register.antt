-- ===== src/Relay/Registry/Register.antt =====
-- internal/relay/registry.go: lemmas on Register, on every branch.
use ggrok.Prelude.{
  ℕ, suc, ◌≡◌, inl, inr, Bool, true, false, List, [], ◌∷◌, none, some, Option-cases, Bool-cases, ok,
  err, arith,
}
use ggrok.Prelude.Maps.{lookup, erase, insert, lookup-insert, lookup-erase}
use ggrok.Proto.Hello.{ack_ok, ack_denied}
use ggrok.Relay.Session.{Peer, new_session}
use ggrok.Relay.Registry.{
  Relay, RelayError, Event, acks, Request, session_for, end_session, take_slot, finish_register,
  register,
}

pub end_session-sessions :
    (ref : ℕ) (r : Relay)
    → ((end_session ref r).2.sessions ≡ r.sessions)
      × ((end_session ref r).2.killed ≡ r.killed)
      × ((end_session ref r).2.next_ref ≡ r.next_ref)
unfolding end_session
end_session-sessions ref r = ground arith

-- A Register that succeeds had a certificate and a proven claim, found the SessionID neither
-- killed nor taken, acked, and left a new session under it with the mode and the ports of the
-- Hello.
pub register-ok :
    (control : Peer) (q : Request) (claimed acked : Bool) (now : ℕ) (r : Relay) {ref : ℕ}
    {events : List Event} {r' : Relay}
    → register control q claimed acked now r ≡ (ok ref, events, r')
    → (cert : ℕ) × (control.cert ≡ some cert)
      × (claimed ≡ true)
      × (lookup q.session_id r.killed ≡ none)
      × (lookup q.session_id r.sessions ≡ none)
      × (events ≡ acks control.conn ack_ok ∷ [])
      × (session_for q.session_id r' ≡ some (ref, new_session q.mode q.ports control.conn cert now))
unfolding register finish_register take_slot session_for
register-ok control q claimed acked now r {ref} {events} {r'} e = elim (Option-cases control.cert) [
  | inl nobody ↦ absurd (ground arith)
  | inr (cert, is) ↦ elim (Bool-cases claimed) [
    | inr unproven ↦ absurd (ground arith)
    | inl proven ↦ elim (Option-cases (lookup q.session_id r.killed)) [
      | inr (u, banned) ↦ absurd (ground arith)
      | inl free ↦ elim (Option-cases (lookup q.session_id r.sessions)) [
        | inr (old, taken) ↦ absurd (ground arith)
        | inl vacant ↦ (
          cert,
          is,
          proven,
          free,
          vacant,
          ground arith,
          ground (
            arith,
            lookup-insert q.session_id q.session_id r.next_ref r.sessions,
            lookup-insert r.next_ref r.next_ref (new_session q.mode q.ports control.conn cert now)
                r.heap,
          ),
        )
      ]
    ]
  ]
]

-- A Register that is refused leaves what every SessionID is bound to, and the killed ones, as they
-- were.
pub register-err :
    (control : Peer) (q : Request) (claimed acked : Bool) (now : ℕ) (r : Relay) {e : RelayError}
    {events : List Event} {r' : Relay}
    → register control q claimed acked now r ≡ (err e, events, r')
    → (r'.killed ≡ r.killed) × ((id : ℕ) → lookup id r'.sessions ≡ lookup id r.sessions)
unfolding register finish_register take_slot
register-err control q claimed acked now r {e} {events} {r'} h = elim (Option-cases control.cert) [
  | inl nobody ↦ (ground arith, λ id. ground arith)
  | inr (cert, is) ↦ elim (Bool-cases claimed) [
    | inr unproven ↦ (ground arith, λ id. ground arith)
    | inl proven ↦ elim (Option-cases (lookup q.session_id r.killed)) [
      | inr (u, banned) ↦ (ground arith, λ id. ground arith)
      | inl free ↦ elim (Option-cases (lookup q.session_id r.sessions)) [
        | inr (old, taken) ↦ (ground arith, λ id. ground arith)
        | inl vacant ↦ elim (Bool-cases acked) [
          | inl sent ↦ absurd (ground arith)
          | inr lost ↦
              let r1 : Relay = record r {
                heap = insert r.next_ref (new_session q.mode q.ports control.conn cert now) r.heap;
                next_ref = suc r.next_ref;
                sessions = erase q.session_id (insert q.session_id r.next_ref r.sessions);
              } in
              let kept = end_session-sessions r.next_ref r1 in
              (
                ground arith,
                λ id. ground (
                  arith,
                  lookup-erase q.session_id id (insert q.session_id r.next_ref r.sessions),
                  lookup-insert q.session_id id r.next_ref r.sessions,
                ),
              )
        ]
      ]
    ]
  ]
]

-- To a claimant with a certificate or without who does not prove its claim, relay answers the same
-- for any two registries and changes nothing.
register-unproven :
    (control : Peer) (q : Request) (acked acked' : Bool) (now : ℕ) (r r' : Relay)
    → ((register control q false acked now r).0 ≡ (register control q false acked' now r').0)
      × ((register control q false acked now r).1 ≡ (register control q false acked' now r').1)
      × ((register control q false acked now r).1 ≡ acks control.conn ack_denied ∷ [])
      × ((register control q false acked now r).2 ≡ r)
unfolding register
register-unproven control q acked acked' now r r' = ground arith
