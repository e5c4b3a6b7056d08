-- ===== src/Examples/Registry.antt =====
-- A relay with one session: who registers, who attaches, and what Kill does to it.
use ggrok.Prelude.{
  ℕ, ◌*◌, ◌^◌, ◌≡◌, ◌≢◌, ◌<◌, refl, true, false, List, [], ◌∷◌, none, some, ok, err,
}
use ggrok.Prelude.Maps.{lookup, erase, insert, Distinct}
use ggrok.Proto.Hello.{mode_tcp, ack_ok, ack_denied, ack_publisher_exists}
use ggrok.Relay.Session.{
  Session, Peer, Pending, new_session, add_pending, claim_pending, add_stream, begin_shutdown,
  shutdown,
}
use ggrok.Relay.Registry.{
  Relay, Event, acks, requests, splices, closes, tells, Request, new_registry, session_for,
  end_session, take_slot, finish_register, register, matching, kill_found, kill, finish_attach,
  attach_subscriber_data, finish_pairing, attach_publisher_data, session_killed, publisher_exists,
}
use ggrok.Relay.Registry.Register.{register-ok}
use ggrok.Relay.Registry.Kill.{register-kill}
use ggrok.Relay.Registry.Data.{attach_subscriber_data-answered, attach_publisher_data-ok}

abbrev id : ℕ
id = 5 * 2 ^ 80

abbrev publisher : Peer
publisher = record { conn = 10; is_tls = true; cert = some 66 }

abbrev request : Request
request = record { session_id = id; mode = mode_tcp; ports = 3 }

abbrev registered : Relay
registered = record {
  heap = (0, new_session mode_tcp 3 10 66 1) ∷ [];
  next_ref = 1;
  sessions = (id, 0) ∷ [];
  killed = [];
}

publisher_registers :
    register publisher request true true 1 new_registry ≡ (ok 0, acks 10 ack_ok ∷ [], registered)
unfolding register finish_register take_slot lookup insert erase
publisher_registers = refl

register-ok_example :
    (cert : ℕ) × (publisher.cert ≡ some cert)
    × (true ≡ true)
    × (lookup id new_registry.killed ≡ none)
    × (lookup id new_registry.sessions ≡ none)
    × ((acks 10 ack_ok ∷ []) ≡ acks 10 ack_ok ∷ [])
    × (session_for id registered ≡ some (0, new_session mode_tcp 3 10 cert 1))
register-ok_example =
    register-ok publisher request true true 1 new_registry {ref = 0} {events = acks 10 ack_ok ∷ []}
      {r' = registered} publisher_registers

rival_is_refused :
    register publisher request true true 2 registered
    ≡ (err publisher_exists, acks 10 ack_publisher_exists ∷ [], registered)
unfolding register finish_register take_slot lookup insert erase
rival_is_refused = refl

-- A subscriber has joined.
abbrev joined : Session
joined = record {
  mode = mode_tcp;
  ports = 3;
  publisher = 10;
  publisher_cert = 66;
  since = 1;
  closed = false;
  subscribers = (0, record { control = 20; cert_key = 77; since = 2 }) ∷ [];
  next_sub_id = 1;
  subscriber_certs = (77, 1) ∷ [];
  next_req_id = 0;
  pending = [];
  streams = [];
}

abbrev relay : Relay
relay = record registered { heap = (0, joined) ∷ [] }

abbrev data_conn : Peer
data_conn = record { conn = 21; is_tls = true; cert = some 77 }

abbrev answer : Peer
answer = record { conn = 11; is_tls = true; cert = some 66 }

abbrev asked : Relay
asked = record registered {
  heap =
      (
        0,
        record joined {
          next_req_id = 1;
          pending = (0, record { conn = 21; port = 1; since = 3 }) ∷ [];
        },
      )
      ∷ [];
}

abbrev ask_events : List Event
ask_events = acks 21 ack_ok ∷ requests 10 0 1 ∷ []

relay_live : session_for id relay ≡ some (0, joined)
unfolding session_for lookup
relay_live = refl

subscriber_asks :
    attach_subscriber_data data_conn id 1 true true 3 relay ≡ (ok 0, ask_events, asked)
unfolding attach_subscriber_data finish_attach session_for add_pending lookup insert erase
subscriber_asks = refl

attach_subscriber_data-answered_example :
    (1 < joined.ports)
    × (ask_events ≡ acks 21 ack_ok ∷ requests joined.publisher 0 1 ∷ [])
    × ((attach_publisher_data id 0 answer 4 asked).0 ≡ ok 21)
    × ((attach_publisher_data id 0 answer 4 asked).1 ≡ splices 21 11 ∷ [])
attach_subscriber_data-answered_example =
    attach_subscriber_data-answered id 1 3 4 0 data_conn answer joined relay {req = 0}
      {events = ask_events} {r1 = asked} relay_live subscriber_asks refl

abbrev paired : Relay
paired = record registered {
  heap =
      (0, record joined { next_req_id = 1; streams = (0, record { port = 1; started = 4 }) ∷ [] })
      ∷ [];
}

publisher_answers : attach_publisher_data id 0 answer 4 asked ≡ (ok 21, splices 21 11 ∷ [], paired)
unfolding attach_publisher_data finish_pairing claim_pending add_stream session_for lookup insert
    erase
publisher_answers = refl

attach_publisher_data-ok_example :
    (ref : ℕ) × (s : Session) × (waiting : Pending) × (session_for id asked ≡ some (ref, s))
    × (answer.cert ≡ some s.publisher_cert)
    × (lookup 0 s.pending ≡ some waiting)
    × (waiting.conn ≡ 21)
    × ((splices 21 11 ∷ []) ≡ splices 21 11 ∷ [])
    × ((peer' : Peer) (later sub' : ℕ)
        → (attach_publisher_data id 0 peer' later paired).0 ≢ ok sub')
attach_publisher_data-ok_example =
    attach_publisher_data-ok id 0 answer 4 asked {sub = 21} {events = splices 21 11 ∷ []}
      {r' = paired} publisher_answers

relay-Distinct : Distinct relay.sessions
unfolding lookup
relay-Distinct = (refl, tt)

abbrev kill_events : List Event
kill_events = closes 10 ∷ tells 20 ∷ []

abbrev killed_relay : Relay
killed_relay = record {
  heap = (0, record joined { closed = true }) ∷ [];
  next_ref = 1;
  sessions = [];
  killed = (id, tt) ∷ [];
}

relay_kills : kill 5 relay ≡ (ok 1, kill_events, killed_relay)
unfolding kill kill_found matching end_session shutdown begin_shutdown lookup insert erase
relay_kills = refl

relay_holds : lookup id relay.sessions ≡ some 0
unfolding lookup
relay_holds = refl

register-kill_example :
    register publisher request true true 9 killed_relay
    ≡ (err session_killed, acks 10 ack_denied ∷ [], killed_relay)
register-kill_example =
    register-kill 5 0 66 9 publisher request true relay {n = 1} {events = kill_events}
      {r' = killed_relay} relay-Distinct relay_kills relay_holds refl refl
