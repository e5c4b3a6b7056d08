-- ===== src/Examples/Broker.antt =====
-- A registry with calls that publish, kill and publish again.
use ggrok.Prelude.{◌≡◌, refl, true, false, List, [], ◌∷◌, some}
use ggrok.Prelude.Maps.{lookup}
use ggrok.Relay.Session.{Peer, new_session}
use ggrok.Relay.Registry.{Relay, Request, new_registry}
use ggrok.Relay.Registry.Broker.{Call, registers, unregisters, kills, answers, call, calls, seen}
use ggrok.Relay.Registry.Broker.Refinement.{calls-answers}
use ggrok.Relay.Registry.Broker.Killed.{calls-killed}

abbrev publisher : Peer
publisher = record { conn = 4; is_tls = true; cert = some 9 }

abbrev request : Request
request = record { session_id = 5; mode = 1; ports = 2 }

abbrev history : List Call
history =
    registers publisher request true true 100
    ∷ kills 0
    ∷ registers publisher request true true 200
    ∷ unregisters 5 0
    ∷ []

calls-answers_example :
    ((calls new_registry history).0 ≡ (answers (record { live = []; dead = [] }) history).0)
    × (seen (calls new_registry history).1 ≡ (answers (record { live = []; dead = [] }) history).1)
calls-answers_example = calls-answers history

abbrev killed : Relay
killed = record {
  heap = (0, new_session 1 2 4 9 100) ∷ [];
  next_ref = 1;
  sessions = [];
  killed = (5, tt) ∷ [];
}

is_killed : lookup 5 killed.killed ≡ some tt
unfolding lookup
is_killed = refl

calls-killed_example :
    (call (calls killed history).1 (registers publisher request true true 300)).0 ≡ some false
calls-killed_example = calls-killed killed history publisher request true true 300 is_killed
