-- ===== src/Relay/Session/Pairing.antt =====
-- internal/relay/session.go: a request from addPending to claimPending or its timer.
use ggrok.Prelude.{ℕ, ◌≡◌, [], none, some, Option-cases, arith, inl, inr, if◌then◌else◌, ◌==◌}
use ggrok.Prelude.Maps.{
  lookup, insert, lookup-insert, lookup-erase, erase_missing, lookup-above, erase-insert,
}
use ggrok.Relay.Session.{Session, Peer, Pending, add_pending, claim_pending, remove_pending}
use ggrok.Relay.Session.Invariant.{IsValid}

-- In a valid session, a request that was just made had an id that none waited under, is claimed
-- with its connection and port, and leaves the requests that were there before it.
pub claim_pending-add_pending :
    (n : ℕ) (peer : Peer) (port now : ℕ) (s : Session) {id : ℕ} {s' : Session}
    → IsValid n s
    → add_pending peer port now s ≡ some (id, s')
    → ((claim_pending id s').0 ≡ some (peer.conn, port))
      × ((claim_pending id s').1.pending ≡ s.pending)
      × (lookup id s.pending ≡ none)
unfolding add_pending claim_pending
claim_pending-add_pending n peer port now s {id} {s'} v e =
    let req : Pending = record { conn = peer.conn; port = port; since = now } in
    let its : id ≡ s.next_req_id = ground arith in
    let put : s'.pending ≡ insert id req s.pending = ground arith in
    let fresh : lookup id s.pending ≡ none =
      rw its (lookup-above s.next_req_id s.next_req_id s.pending (omega arith) v.reqs_below) in
    let found : lookup id s'.pending ≡ some req =
      rw (put, lookup-insert id id req s.pending) (ground arith) in
    (ground arith, ground (arith, erase-insert id req s.pending, erase_missing id s.pending), fresh)

-- Once a request is claimed, its timer closes nothing and no other claim gets it, and the other
-- requests can be claimed as before.
pub claim_pending_once :
    (id : ℕ) (s : Session) {x : ℕ × ℕ}
    → (claim_pending id s).0 ≡ some x
    → ((remove_pending id (claim_pending id s).1).0 ≡ [])
      × ((j : ℕ)
          → (claim_pending j (claim_pending id s).1).0
            ≡ (if id == j then none else (claim_pending j s).0))
unfolding claim_pending remove_pending
claim_pending_once id s {x} e = elim (Option-cases (lookup id s.pending)) [
  | inl gone ↦ absurd (ground arith)
  | inr (req, q) ↦ (
    ground (arith, lookup-erase id id s.pending),
    λ j. ground (arith, lookup-erase id j s.pending),
  )
]
