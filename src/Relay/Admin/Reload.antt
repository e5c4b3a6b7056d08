-- ===== src/Relay/Admin/Reload.antt =====
-- internal/relay/admin.go: what a reload of the revocation list does to the sockets that relay holds.
use ggrok.Prelude.{
  ℕ, ◌+◌, ◌≡◌, ◌≢◌, refl, Bool, true, List, [], none, some, ok, length, All, arith, not,
  if◌then◌else◌, ◌∷◌,
}
use ggrok.Prelude.Maps.{lookup, Distinct}
use ggrok.Ca.Serials.{Text, serial_text, contains, parse_revoked_serials, revoked_list}
use ggrok.Ca.Files.{find}
use ggrok.Ca.Directory.{Cert, certificate, Directory, revoke, revoked_serials}
use ggrok.Ca.Directory.Filing.{IsValid}
use ggrok.Mtls.Enforcement.{revoke-parse_revoked_serials}
use ggrok.Mtls.{RevocationSet, is_revoked, replace}
use ggrok.Relay.Registry.{Relay}
use ggrok.Relay.Connections.{close_matching_after_reply}
use ggrok.Relay.Connections.Eviction.{kept, close_matching_after_reply-finish}
use ggrok.Relay.Connections.Policy.{Call, run, run-revoked}
use ggrok.Relay.Admin.{
  result, reloaded, Plane, load_revoked_serials, newly_revoked, matches, enforce, Surroundings,
  serve_reload_crl,
}

-- Which sockets a list covers.
abbrev pub listed : List Text → ℕ → Bool
listed serials serial = contains (serial_text serial) serials

-- How many of the serials pass a test.
unfoldable pub count_if : (Text → Bool) → List Text → ℕ
count_if test [] = 0
count_if test (t ∷ ts) = (if test t then 1 else 0) + count_if test ts

newly_revoked-count_if :
    (old : RevocationSet) (serials : List Text)
    → newly_revoked old serials ≡ count_if (λ t. not (is_revoked old t)) serials
unfolding newly_revoked count_if
newly_revoked-count_if old [] = refl
newly_revoked-count_if old (t ∷ ts) = ground (arith, newly_revoked-count_if old ts)

module _ {ℓ} {S : Type ℓ} (view : Relay → S) (env : Surroundings) where
  serve_reload_crl-enforce :
      (conn : ℕ) (text : Text) (serials : List Text) (s : Plane)
      → env.revoked_file ≡ some (some text)
      → parse_revoked_serials env.fits text ≡ ok serials
      → serve_reload_crl view env conn s ≡ (
        result true
            (reloaded (length serials) (newly_revoked s.revoked serials) (enforce serials conn s).0)
            (enforce serials conn s).0,
        (enforce serials conn s).1,
        (enforce serials conn s).2,
      )
  unfolding serve_reload_crl load_revoked_serials
  serve_reload_crl-enforce conn text serials s named parsed = ground arith

  -- If every socket is tracked once and the file parses, a reload answers with how many serials
  -- are listed, how many of them the set did not contain and how many sockets it took off the set,
  -- which are those whose serial is listed; the set of revoked serials is the list, and no session
  -- changes.
  pub serve_reload_crl-kept :
      (conn : ℕ) (text : Text) (serials : List Text) (s : Plane)
      → Distinct s.connections
      → env.revoked_file ≡ some (some text)
      → parse_revoked_serials env.fits text ≡ ok serials
      → (n : ℕ) × ((serve_reload_crl view env conn s).0
          ≡ result true
              (reloaded (length serials) (count_if (λ t. not (is_revoked s.revoked t)) serials) n)
              n)
        × ((c : ℕ)
            → lookup c (serve_reload_crl view env conn s).2.connections
              ≡ kept (listed serials) (lookup c s.connections))
        × (n + length (serve_reload_crl view env conn s).2.connections ≡ length s.connections)
        × ((serve_reload_crl view env conn s).2.revoked ≡ some serials)
        × ((serve_reload_crl view env conn s).2.relay ≡ s.relay)
  serve_reload_crl-kept conn text serials s d named parsed =
      let (n, deferred, conns, s1) =
        close_matching_after_reply (listed serials) (some conn) s.connections in
      let (rest, count) =
        close_matching_after_reply-finish (listed serials) (some conn) s.connections {n = n}
          {deferred = deferred} {conns = conns} {s1 = s1} d refl in
      rw
        (
          serve_reload_crl-enforce conn text serials s named parsed,
          newly_revoked-count_if s.revoked serials,
        )
        (unfold enforce replace is_revoked in (n, refl, rest, count, refl, refl))

  -- If the file parses and lists a serial, then however the sockets were used before the reload
  -- and whatever calls follow it that consult the set which this reload installed, no socket has
  -- that serial.
  pub serve_reload_crl-never :
      (conn c serial : ℕ) (text : Text) (serials : List Text) (s : Plane) (old : ℕ → Bool)
      (before after : List Call)
      → s.connections ≡ run old [] before
      → env.revoked_file ≡ some (some text)
      → parse_revoked_serials env.fits text ≡ ok serials
      → contains (serial_text serial) serials ≡ true
      → lookup c (
          run
            (matches (serve_reload_crl view env conn s).2.revoked)
            (serve_reload_crl view env conn s).2.connections
            after)
        ≢ some (some serial)
  serve_reload_crl-never conn c serial text serials s old before after was named parsed has =
      let (n, deferred, conns, s1) =
        close_matching_after_reply (listed serials) (some conn) (run old [] before) in
      rw (serve_reload_crl-enforce conn text serials s named parsed) (
        unfold enforce replace is_revoked in
        rw was (
          run-revoked old (listed serials) (some conn) before after c serial {n = n}
            {deferred = deferred} {conns = conns} {s1 = s1} refl has))

  -- If the directory is well-formed, a revocation of a common name succeeded, and the list of the
  -- then revoked serials is in the file that relay reloads and fits its scanner, then for a
  -- certificate of that name that was filed among the issued, however the sockets were used before
  -- the reload and whatever calls follow it that consult the set which this reload installed, no
  -- socket has the certificate's serial.
  pub revoke-serve_reload_crl :
      (made : Bool) (fails : Text → Bool) (common_name name : Text) (cert : Cert) (d : Directory)
      (conn c : ℕ) (s : Plane) (old : ℕ → Bool) (before after : List Call) {d' : Directory}
      {set : List Text}
      → IsValid d
      → revoke made fails common_name d ≡ (none, d')
      → find name d.issued ≡ some (certificate cert)
      → cert.common_name ≡ common_name
      → revoked_serials d' ≡ some set
      → All (λ t. env.fits t ≡ true) set
      → s.connections ≡ run old [] before
      → env.revoked_file ≡ some (some (revoked_list set))
      → lookup c (
          run
            (matches (serve_reload_crl view env conn s).2.revoked)
            (serve_reload_crl view env conn s).2.connections
            after)
        ≢ some (some cert.serial)
  revoke-serve_reload_crl made fails common_name name cert d conn c s old before after {d'} {set} v
        e h cn read fit was named =
      let (set', parsed, has) =
        revoke-parse_revoked_serials env.fits made fails common_name name cert d {d' = d'}
          {set = set} v e h cn read fit in
      serve_reload_crl-never conn c cert.serial (revoked_list set) set' s old before after was named
        parsed has
