-- ===== src/Examples/Connections.antt =====
-- Three sockets, a reload that revokes one certificate, and a later attempt with it.
use ggrok.Prelude.{ℕ, ◌≡◌, ◌≢◌, ◌≤◌, refl, Bool, false, List, [], ◌∷◌, some, length, ◌==◌}
use ggrok.Prelude.Maps.{lookup, erase, insert, Distinct}
use ggrok.Relay.Connections.{
  ConnectionSet, max_connections, track, authenticate, evictable, is_reply, evict,
  close_matching_after_reply, finish,
}
use ggrok.Relay.Connections.Policy.{Call, tracks, authenticates, step, run, run-bound, run-revoked}

abbrev revoked : ℕ → Bool
revoked serial = serial == 7

abbrev nothing : ℕ → Bool
nothing serial = false

abbrev before : List Call
before =
    tracks 1
    ∷ tracks 2
    ∷ tracks 3
    ∷ authenticates (some 1) (some 7)
    ∷ authenticates (some 2) (some 8)
    ∷ authenticates (some 3) (some 7)
    ∷ []

abbrev after : List Call
after = tracks 4 ∷ authenticates (some 4) (some 7) ∷ []

abbrev sockets : ConnectionSet
sockets = (3, some 7) ∷ (2, some 8) ∷ (1, some 7) ∷ []

abbrev evicted : ConnectionSet
evicted = (3, some 7) ∷ (2, some 8) ∷ []

sockets-Distinct : Distinct sockets
unfolding lookup
sockets-Distinct = (refl, (refl, (refl, tt)))

-- The request for the reload came on the third socket.
sockets_evict : close_matching_after_reply revoked (some 3) sockets ≡ (2, some 3, 1 ∷ [], evicted)
unfolding close_matching_after_reply evict evictable is_reply
sockets_evict = refl

run_evicts :
    close_matching_after_reply revoked (some 3) (run nothing [] before)
    ≡ (2, some 3, 1 ∷ [], evicted)
unfolding close_matching_after_reply evict evictable is_reply run step track authenticate lookup
    insert erase
run_evicts = refl

run-bound_example :
    (length (run revoked [] before) ≤ max_connections) × Distinct (run revoked [] before)
run-bound_example = run-bound revoked before

run-revoked_example : lookup 4 (run revoked (finish (some 3) evicted).1 after) ≢ some (some 7)
run-revoked_example =
    run-revoked nothing revoked (some 3) before after 4 7 {n = 2} {deferred = some 3}
      {conns = 1 ∷ []} {s1 = evicted} run_evicts refl
