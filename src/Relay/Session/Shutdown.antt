-- ===== src/Relay/Session/Shutdown.antt =====
-- internal/relay/session.go: the end of a session.
use ggrok.Prelude.{ℕ, ◌≡◌, refl, [], map, none, arith, true, false, length, length-map}
use ggrok.Prelude.Maps.{lookup}
use ggrok.Relay.Session.{
  Session, Peer, Stream, Subscriber, Pending, add_subscriber, add_pending, add_stream,
  claim_pending, begin_shutdown, shutdown,
}

-- The shutdown of an open session closes the connection of every request, tells every subscriber
-- and counts them, and changes nothing else but that the session is closed and no request waits.
pub shutdown-reaches :
    (s : Session)
    → s.closed ≡ false
    → ((shutdown s).0.closes ≡ map (λ (e : ℕ × Pending). e.1.conn) s.pending)
      × ((shutdown s).0.tells ≡ map (λ (e : ℕ × Subscriber). e.1.control) s.subscribers)
      × ((shutdown s).1 ≡ length s.subscribers)
      × ((shutdown s).2 ≡ record s { closed = true; pending = [] })
unfolding shutdown begin_shutdown
shutdown-reaches s alive =
    ground (arith, length-map s.subscribers (λ (e : ℕ × Subscriber). e.1.control))

closed_refuses :
    (s : Session) (peer : Peer) (port now id : ℕ) (stream : Stream)
    → s.closed ≡ true
    → s.pending ≡ []
    → (add_subscriber peer now s ≡ none)
      × (add_pending peer port now s ≡ none)
      × (add_stream id stream s ≡ (false, s))
      × (claim_pending id s ≡ (none, s))
      × (shutdown s ≡ (record { closes = []; tells = [] }, 0, s))
unfolding shutdown begin_shutdown add_subscriber add_pending add_stream claim_pending lookup
closed_refuses s peer port now id stream over empty = (
  ground arith,
  ground arith,
  ground arith,
  (let gone : lookup id s.pending ≡ none = rw empty refl in ground arith),
  ground arith,
)

shutdown-closed :
    (s : Session)
    → (s.closed ≡ true → s.pending ≡ [])
    → ((shutdown s).2.closed ≡ true) × ((shutdown s).2.pending ≡ [])
unfolding shutdown begin_shutdown
shutdown-closed s empty = ground arith

-- If no request waits once the session is closed, then after a shutdown nobody can join, no
-- request or stream is accepted, no request is claimed, and a second shutdown does nothing.
pub shutdown-final :
    (s : Session) (peer : Peer) (port now id : ℕ) (stream : Stream)
    → (s.closed ≡ true → s.pending ≡ [])
    → (add_subscriber peer now (shutdown s).2 ≡ none)
      × (add_pending peer port now (shutdown s).2 ≡ none)
      × (add_stream id stream (shutdown s).2 ≡ (false, (shutdown s).2))
      × (claim_pending id (shutdown s).2 ≡ (none, (shutdown s).2))
      × (shutdown (shutdown s).2 ≡ (record { closes = []; tells = [] }, 0, (shutdown s).2))
shutdown-final s peer port now id stream empty =
    let (over, none_left) = shutdown-closed s empty in
    closed_refuses (shutdown s).2 peer port now id stream over none_left
