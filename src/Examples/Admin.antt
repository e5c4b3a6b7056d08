-- ===== src/Examples/Admin.antt =====
-- An admin connection of a relay with one session and three sockets.
use ggrok.Prelude.{
  not, if◌then◌else◌, ◌==◌, ℕ, ◌+◌, ◌≡◌, ◌≢◌, refl, Bool, true, false, List, [], ◌∷◌, none, some,
  ok, length, arith, ◌==◌,
}
use ggrok.Prelude.Bytes.{codes}
use ggrok.Prelude.Maps.{lookup, Distinct}
use ggrok.Ca.Serials.{
  Text, serial_text, text_from, digit_char, revoked_list, parse_revoked_serials, parse_lines,
  parse_line, lines, trim_space, trim_left, is_space, all_hex, hex_char, hex_number, hex_value,
  contains, add,
}
use ggrok.Relay.Session.{Session, new_session}
use ggrok.Relay.Registry.{Relay, new_registry, kill}
use ggrok.Relay.Registry.Broker.{succeeded}
use ggrok.Relay.Connections.Eviction.{kept}
use ggrok.Relay.Connections.Policy.{Call, tracks, authenticates, run}
use ggrok.Relay.Admin.{
  Plane, result, reloaded, matches, Surroundings, snapshot, serve_reload_crl, handle_admin_conn,
}
use ggrok.Relay.Admin.Reveals.{handle_admin_conn-reveals}
use ggrok.Mtls.{is_revoked}
use ggrok.Relay.Admin.Reload.{listed, count_if, serve_reload_crl-kept, revoke-serve_reload_crl}
use ggrok.Relay.Admin.Snapshots.{shown, kill-snapshot}
use ggrok.Examples.Authority.{
  laptop, before, after, never, fits, revoked_laptop, before-IsValid, after_serials, laptop_file,
}

abbrev session : Session
session = new_session 1 2 10 99 5

abbrev relay : Relay
relay = record { heap = (0, session) ∷ []; next_ref = 1; sessions = (7, 0) ∷ []; killed = [] }

-- The socket 1 is authenticated with the laptop's serial.
abbrev calls : List Call
calls =
    tracks 1 ∷ tracks 2 ∷ authenticates (some 1) (some 171) ∷ authenticates (some 2) (some 12) ∷ []

abbrev nothing : ℕ → Bool
nothing serial = false

abbrev plane : Plane
plane = record { relay = relay; connections = run nothing [] calls; revoked = none }

abbrev list_file : Text
list_file = revoked_list (codes "ab" ∷ [])

abbrev env : Surroundings
env = record { fits = fits; revoked_file = some (some list_file); kill_tag = λ body. none }

abbrev view : Relay → ℕ
view r = r.next_ref

revoke-serve_reload_crl_example :
    lookup 1 (
      run
        (matches (serve_reload_crl view env 2 plane).2.revoked)
        (serve_reload_crl view env 2 plane).2.connections
        calls)
    ≢ some (some 171)
revoke-serve_reload_crl_example =
    revoke-serve_reload_crl view env true never (codes "laptop") (codes "ab.pem") laptop before 2 1
      plane nothing calls calls {d' = after} {set = codes "ab" ∷ []} before-IsValid revoked_laptop
      laptop_file refl after_serials (refl, tt) refl refl

abbrev small_file : Text
small_file = codes "AB"

abbrev small_env : Surroundings
small_env = record { fits = fits; revoked_file = some (some small_file); kill_tag = λ body. none }

abbrev sockets : Plane
sockets = record { relay = relay; connections = (2, some 12) ∷ (1, some 171) ∷ []; revoked = none }

sockets-Distinct : Distinct sockets.connections
unfolding lookup
sockets-Distinct = (refl, (refl, tt))

small_parsed : parse_revoked_serials fits small_file ≡ ok (serial_text 171 ∷ [])
unfolding parse_revoked_serials parse_lines parse_line lines trim_space trim_left is_space all_hex
    hex_char hex_number hex_value contains add serial_text text_from digit_char
small_parsed = refl

serve_reload_crl-kept_example :
    (n : ℕ) × ((serve_reload_crl view small_env 1 sockets).0
      ≡ result true
          (reloaded 1 (count_if (λ t. not (is_revoked none t)) (serial_text 171 ∷ [])) n)
          n)
    × ((c : ℕ)
        → lookup c (serve_reload_crl view small_env 1 sockets).2.connections
          ≡ kept (listed (serial_text 171 ∷ [])) (lookup c sockets.connections))
    × (n + length (serve_reload_crl view small_env 1 sockets).2.connections ≡ 2)
    × ((serve_reload_crl view small_env 1 sockets).2.revoked ≡ some (serial_text 171 ∷ []))
    × ((serve_reload_crl view small_env 1 sockets).2.relay ≡ relay)
serve_reload_crl-kept_example =
    serve_reload_crl-kept view small_env 1 small_file (serial_text 171 ∷ []) sockets
      sockets-Distinct refl small_parsed

abbrev empty_plane : Plane
empty_plane = record { relay = new_registry; connections = []; revoked = none }

handle_admin_conn-reveals_example :
    ((handle_admin_conn view env 1 (some 1) true false true [] sockets).0
      ≡ (handle_admin_conn view small_env 9 (some 1) true false false [] empty_plane).0)
    × ((handle_admin_conn view env 1 (some 1) true false true [] sockets).1 ≡ [])
    × ((handle_admin_conn view env 1 (some 1) true false true [] sockets).2 ≡ 1 ∷ [])
    × ((handle_admin_conn view env 1 (some 1) true false true [] sockets).3.relay ≡ relay)
    × ((handle_admin_conn view env 1 (some 1) true false true [] sockets).3.revoked ≡ none)
    × ((c : ℕ)
        → lookup c (handle_admin_conn view env 1 (some 1) true false true [] sockets).3.connections
          ≡ (if c == 1 then none else lookup c sockets.connections))
handle_admin_conn-reveals_example =
    handle_admin_conn-reveals view view env small_env 1 9 (some 1) true true false [] [] sockets
      empty_plane

abbrev carried : ℕ → ℕ × ℕ
carried req = (0, 0)

abbrev identity : ℕ → ℕ
identity conn = conn

relay_live : lookup 0 relay.heap ≢ none
unfolding lookup
relay_live e = ground (arith, e)

kill-snapshot_example :
    (succeeded (kill 0 relay)).0
    ≡ some (shown ℕ identity carried 0 (snapshot ℕ identity carried relay) == 1)
kill-snapshot_example = kill-snapshot ℕ identity carried 0 relay (relay_live, tt)
