-- ===== src/Examples/Sessions.antt =====
-- A session that a subscriber joins, asks a connection of, and sees end.
use ggrok.Prelude.{◌+◌, ◌≡◌, refl, true, false, List, [], ◌∷◌, some, arith}
use ggrok.Prelude.Maps.{lookup, erase, insert}
use ggrok.Proto.Hello.{mode_tcp}
use ggrok.Relay.Session.{
  Session, Peer, Stream, new_session, add_subscriber, add_pending, claim_pending,
}
use ggrok.Relay.Session.Invariant.{IsValid}
use ggrok.Relay.Session.History.{
  Call, joins, asks, claims, expires, shuts, step, run, run-new_session-IsValid,
}
use ggrok.Relay.Session.Ownership.{count, over, accepted, paired, closed_by, waiting, run-fates}

abbrev subscriber : Peer
subscriber = record { conn = 20; is_tls = true; cert = some 77 }

abbrev data_conn : Peer
data_conn = record { conn = 21; is_tls = true; cert = some 77 }

abbrev fresh : Session
fresh = new_session mode_tcp 3 10 66 1

abbrev calls : List Call
calls =
    joins subscriber 2
    ∷ asks data_conn 1 3
    ∷ asks data_conn 2 3
    ∷ claims 0
    ∷ expires 0
    ∷ asks (record data_conn { conn = 22 }) 0 4
    ∷ shuts
    ∷ []

run-fates_example :
    count 21 (over accepted fresh calls)
    ≡ count 21 (over paired fresh calls)
      + count 21 (over closed_by fresh calls)
      + count 21 (waiting (run fresh calls))
run-fates_example = run-fates 21 calls mode_tcp 3 10 66 1 (omega arith)

run-new_session-IsValid_example : IsValid 7 (run fresh calls)
run-new_session-IsValid_example = run-new_session-IsValid calls mode_tcp 3 10 66 1 (omega arith)

-- The session that the subscriber has joined.
abbrev joined : Session
joined = record {
  mode = mode_tcp;
  ports = 3;
  publisher = 10;
  publisher_cert = 66;
  since = 1;
  closed = false;
  subscribers = (0, record { control = 20; cert_key = 77; since = 2 }) ∷ [];
  next_sub_id = 1;
  subscriber_certs = (77, 1) ∷ [];
  next_req_id = 0;
  pending = [];
  streams = [];
}

joined_runs : run fresh (joins subscriber 2 ∷ []) ≡ joined
unfolding run step add_subscriber new_session insert erase lookup
joined_runs = refl

joined-IsValid : IsValid 1 joined
joined-IsValid =
    rw joined_runs at
      (run-new_session-IsValid (joins subscriber 2 ∷ []) mode_tcp 3 10 66 1 (omega arith))

abbrev asked : Session
asked = record joined {
  next_req_id = 1;
  pending = (0, record { conn = 21; port = 1; since = 3 }) ∷ [];
}

joined_asks : add_pending data_conn 1 3 joined ≡ some (0, asked)
unfolding add_pending insert erase lookup
joined_asks = refl

asked_claims : (claim_pending 0 asked).0 ≡ some (21, 1)
unfolding claim_pending lookup
asked_claims = refl

abbrev stream : Stream
stream = record { port = 1; started = 5 }

open_claims : asked.closed ≡ true → asked.pending ≡ []
open_claims e = absurd (ground arith)
