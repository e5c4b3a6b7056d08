-- ===== src/Examples/Peers.antt =====
-- A publisher and a subscriber with the four ports of a range, and a bundle of credentials.
use ggrok.Prelude.{
  ℕ, ◌+◌, ◌≤◌, ◌≡◌, refl, Bool, true, false, List, [], ◌∷◌, Option, none, some, length, ltb, arith,
  if◌then◌else◌, same_bytes,
}
use ggrok.Prelude.Bytes.{codes, put_be}
use ggrok.Proto.Io.{Conn, done, left, write_full}
use ggrok.Proto.Control.{
  control_request_data, encode_frame, read_control_frame, write_control_frame, write_request_data,
}
use ggrok.Peer.Session.{max_tunnels}
use ggrok.Listen.{Step, accepts, finishes, becomes_ready, new_listener, run}
use ggrok.Listen.Accounts.{held, spliced, closed, accepted, run-accounts, run-slots}
use ggrok.Relay.Session.{Session, Peer, new_session}
use ggrok.Relay.Registry.{Relay, attach_subscriber_data}
use ggrok.Share.{limit_reached, starts, report_forward_error, handle}
use ggrok.Share.Requests.{handle-write_request_data}
use ggrok.Ca.Files.{find, put, drop_file, DistinctFiles}
use ggrok.Ca.Serials.{Text}
use ggrok.Cmd.Credentials.{Disk, not_written, reserve, write_each, remove_each, write_credentials}
use ggrok.Cmd.Credentials.Reservation.{Restored}
use ggrok.Cmd.Credentials.Complete.{overlay, write_credentials-err, write_credentials-ok}
use ggrok.Examples.Toy.{wire}
use ggrok.Examples.HostPort.{toy_net}

abbrev steps : List Step
steps = accepts 5 0 ∷ becomes_ready ∷ accepts 6 1 ∷ accepts 7 0 ∷ finishes 1 false ∷ []

run-accounts_example :
    spliced 6 (run true steps new_listener).0
      + closed 6 (run true steps new_listener).0
      + held 6 (run true steps new_listener).1.active
    ≡ accepted 6 steps
run-accounts_example = run-accounts true 6 steps

run-slots_example : length (run true steps new_listener).1.active ≤ max_tunnels
run-slots_example = run-slots true steps

abbrev request : List ℕ
request = 3 ∷ 0 ∷ 0 ∷ 0 ∷ 10 ∷ 0 ∷ 0 ∷ 0 ∷ 0 ∷ 0 ∷ 0 ∷ 0 ∷ 9 ∷ 0 ∷ 2 ∷ []

abbrev written : Conn
written = record { incoming = []; broken = false; outgoing = request; room = 985; silent = false }

request_written : write_request_data 9 2 (wire []) ≡ done tt written
unfolding write_request_data write_control_frame write_full encode_frame put_be
request_written = refl

handle-write_request_data_example :
    (payload : List ℕ) × (read_control_frame (wire request)
      ≡ done (control_request_data, payload) (left [] (wire request)))
    × (handle toy_net false true control_request_data payload [] ≡ (
        if ltb 0 max_tunnels
        then (starts 9 2 ∷ [], (9, 2) ∷ [])
        else (report_forward_error toy_net false true (some limit_reached), [])))
handle-write_request_data_example =
    handle-write_request_data toy_net 9 2 false true [] [] (wire []) (wire request) {w' = written}
      (omega arith) (omega arith) refl request_written refl

abbrev subscriber : Peer
subscriber = record { conn = 21; is_tls = true; cert = some 9 }

abbrev session : Session
session = record (new_session 1 4 4 8 100) {
  subscribers = (0, record { control = 20; cert_key = 9; since = 1 }) ∷ [];
  subscriber_certs = (9, 1) ∷ [];
}

abbrev relay : Relay
relay = record { heap = (0, session) ∷ []; next_ref = 1; sessions = (5, 0) ∷ []; killed = [] }

abbrev asked : Relay
asked = (attach_subscriber_data subscriber 5 2 true true 3 relay).2

abbrev bundle : Disk
bundle = (codes "cert.pem", 1 ∷ []) ∷ (codes "key.pem", 2 ∷ []) ∷ []

abbrev old : Disk
old = (codes "notes", 7 ∷ []) ∷ []

abbrev creates : Text → Bool
creates name = true

-- The second write fails after a byte.
abbrev full : Text → Option (List ℕ)
full name = if same_bytes name (codes "key.pem") then some (2 ∷ []) else none

-- The certificate of the bundle cannot be removed.
abbrev removes : Text → Bool
removes name = same_bytes name (codes "key.pem")

abbrev fine : Text → Option (List ℕ)
fine name = none

abbrev left_over : Disk
left_over = (codes "cert.pem", 1 ∷ []) ∷ (codes "notes", 7 ∷ []) ∷ []

failed :
    write_credentials creates full removes true bundle old
    ≡ (some (not_written (codes "key.pem")), left_over)
unfolding write_credentials reserve write_each remove_each find put drop_file same_bytes
failed = refl

write_credentials-err_example : Restored creates full removes (codes "key.pem") old left_over
write_credentials-err_example =
    write_credentials-err creates full removes true bundle old (codes "key.pem")
      {e = not_written (codes "key.pem")} {d' = left_over} failed

abbrev complete : Disk
complete = (codes "key.pem", 2 ∷ []) ∷ (codes "cert.pem", 1 ∷ []) ∷ (codes "notes", 7 ∷ []) ∷ []

wrote : write_credentials creates fine removes true bundle old ≡ (none, complete)
unfolding write_credentials reserve write_each find put drop_file same_bytes
wrote = refl

bundle-DistinctFiles : DistinctFiles bundle
unfolding find same_bytes
bundle-DistinctFiles = (refl, (refl, tt))

write_credentials-ok_example :
    find (codes "key.pem") complete
    ≡ overlay (find (codes "key.pem") bundle) (find (codes "key.pem") old)
write_credentials-ok_example =
    write_credentials-ok creates fine removes true bundle old (codes "key.pem") {d' = complete}
      bundle-DistinctFiles wrote
