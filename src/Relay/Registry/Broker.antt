-- ===== src/Relay/Registry/Broker.antt =====
-- What internal/relay/registry.go promises, without its sessions: which SessionIDs are live and which
-- were killed, and what Register, the func that it returns and Kill answer and do to these.
pub mod Refinement
pub mod Killed
use ggrok.Prelude.{
  ℕ, Bool, true, false, not, List, [], ◌∷◌, Option, none, some, Result, ok, err, ◌==◌, ◌&&◌,
  if◌then◌else◌,
}
use ggrok.Relay.Session.{Peer}
use ggrok.Relay.Registry.{
  Relay, Reply, Request, register, unregister, subscribe, release, log_tag, kill,
  attach_subscriber_data, attach_publisher_data,
}

pub record Broker : Type 0 where
  pub live : List ℕ
  pub dead : List ℕ

-- The calls of the registry, with what each of them meets outside.
pub data Call : Type 0 where
  registers : Peer → Request → Bool → Bool → ℕ → Call
  unregisters : ℕ → ℕ → Call
  subscribes : Peer → Request → Bool → ℕ → Call
  releases : ℕ → ℕ → Call
  kills : ℕ → Call
  attaches_subscriber : Peer → ℕ → ℕ → Bool → Bool → ℕ → Call
  attaches_publisher : ℕ → ℕ → Peer → ℕ → Call

unfoldable pub member : ℕ → List ℕ → Bool
member k [] = false
member k (j ∷ js) = if j == k then true else member k js

unfoldable pub remove : ℕ → List ℕ → List ℕ
remove k [] = []
remove k (j ∷ js) = if j == k then remove k js else j ∷ remove k js

unfoldable pub tagged : ℕ → List ℕ → List ℕ
tagged tag [] = []
tagged tag (j ∷ js) = if log_tag j == tag then j ∷ tagged tag js else tagged tag js

-- A publisher gets a session that is its own, and neither live nor killed.
unfoldable pub admits : Broker → Peer → Request → Bool → Bool
admits b control q claimed = elim control.cert [
  | none ↦ false
  | some _ ↦ claimed && (not (member q.session_id b.dead) && not (member q.session_id b.live))
]

unfoldable pub kill_one : Broker → List ℕ → Option Bool × Broker
kill_one b [] = (some false, b)
kill_one b (x ∷ y ∷ more) = (some false, b)
kill_one b (id ∷ []) = (some true, record { live = remove id b.live; dead = id ∷ remove id b.dead })

-- The answer of a call is whether it succeeded, where the broker decides that.
unfoldable pub answer : Broker → Call → Option Bool × Broker
answer b (registers control q claimed acked now) =
    if admits b control q claimed
    then (some acked, if acked then record b { live = q.session_id ∷ b.live } else b)
    else (some false, b)
answer b (unregisters id ref) = (none, record b { live = remove id b.live })
answer b (subscribes control q acked now) = (none, b)
answer b (releases ref id) = (none, b)
answer b (kills tag) = kill_one b (tagged tag b.live)
answer b (attaches_subscriber peer id port acked asked now) = (none, b)
answer b (attaches_publisher id req peer now) = (none, b)

unfoldable pub answers : Broker → List Call → List (Option Bool) × Broker
answers b [] = ([], b)
answers b (c ∷ cs) =
    let (a, b') = answer b c in let (rest, last) = answers b' cs in (a ∷ rest, last)

-- The registry.
unfoldable pub succeeded {ℓ} : {A : Type ℓ} → Reply A → Option Bool × Relay
succeeded (ok x, events, r) = (some true, r)
succeeded (err e, events, r) = (some false, r)

unfoldable pub call : Relay → Call → Option Bool × Relay
call r (registers control q claimed acked now) = succeeded (register control q claimed acked now r)
call r (unregisters id ref) = (none, (unregister id ref r).2)
call r (subscribes control q acked now) = (none, (subscribe control q acked now r).2)
call r (releases ref id) = (none, release ref id r)
call r (kills tag) = succeeded (kill tag r)
call r (attaches_subscriber peer id port acked asked now) =
    (none, (attach_subscriber_data peer id port acked asked now r).2)
call r (attaches_publisher id req peer now) = (none, (attach_publisher_data id req peer now r).2)

unfoldable pub calls : Relay → List Call → List (Option Bool) × Relay
calls r [] = ([], r)
calls r (c ∷ cs) = let (a, r') = call r c in let (rest, last) = calls r' cs in (a ∷ rest, last)

-- What the broker sees of the registry.
unfoldable pub keys {ℓ} : {V : Type ℓ} → List (ℕ × V) → List ℕ
keys [] = []
keys ((k, v) ∷ m) = k ∷ keys m

unfoldable pub seen : Relay → Broker
seen r = record { live = keys r.sessions; dead = keys r.killed }
