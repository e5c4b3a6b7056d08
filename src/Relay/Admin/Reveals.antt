-- ===== src/Relay/Admin/Reveals.antt =====
-- internal/relay/admin.go: what a caller without the admin role is told, and what a refused request does.
use ggrok.Prelude.{
  ℕ, ◌≡◌, refl, Bool, false, List, [], Option, none, some, inl, inr, Bool-cases, Option-cases, err,
  Result-cases, List-cases, arith, ◌==◌, ◌∷◌, if◌then◌else◌,
}
use ggrok.Prelude.Maps.{lookup, lookup-erase}
use ggrok.Relay.Connections.{close}
use ggrok.Proto.Admin.{admin_hello, admin_list, admin_kick, admin_reload_crl, admin_kill}
use ggrok.Relay.Registry.{Relay, RelayError, Event, matching, kill_found, kill}
use ggrok.Relay.Admin.{
  Detail, result, Plane, Surroundings, load_revoked_serials, serve_kill, serve_reload_crl,
  serve_admin_request, answer_admin, handle_admin_conn,
}

module _ {ℓ} {S : Type ℓ} where
  answer_admin_none :
      (view view' : Relay → S) (env env' : Surroundings) (conn conn' : ℕ) (first : Option ℕ)
      (decoded welcomed welcomed' : Bool) (frames frames' : List (ℕ × List ℕ × Bool)) (s s' : Plane)
      → ((answer_admin view env conn first decoded false welcomed frames s).0
          ≡ (answer_admin view' env' conn' first decoded false welcomed' frames' s').0)
        × ((answer_admin view env conn first decoded false welcomed frames s).1 ≡ [])
        × ((answer_admin view env conn first decoded false welcomed frames s).2 ≡ [])
        × ((answer_admin view env conn first decoded false welcomed frames s).3 ≡ s)
  unfolding answer_admin
  answer_admin_none view view' env env' conn conn' none decoded welcomed welcomed' frames frames' s
        s' =
      (refl, refl, refl, refl)
  answer_admin_none view view' env env' conn conn' (some typ) decoded welcomed welcomed' frames
        frames' s s' =
      elim (Bool-cases (typ == admin_hello)) [
        | inr other ↦ ground arith
        | inl hello ↦ elim (Bool-cases decoded) [ inr bad ↦ ground arith | inl good ↦ ground arith ]
      ]

  -- What relay writes to a caller without the admin role depends on the caller's first frame
  -- alone, and not on relay, its surroundings or any later frame; the caller's own socket is
  -- closed and off the set, every other socket is as it was, nothing is done to a session, and the
  -- sessions and the revoked serials are as they were.
  pub handle_admin_conn-reveals :
      (view view' : Relay → S) (env env' : Surroundings) (conn conn' : ℕ) (first : Option ℕ)
      (decoded welcomed welcomed' : Bool) (frames frames' : List (ℕ × List ℕ × Bool)) (s s' : Plane)
      → ((handle_admin_conn view env conn first decoded false welcomed frames s).0
          ≡ (handle_admin_conn view' env' conn' first decoded false welcomed' frames' s').0)
        × ((handle_admin_conn view env conn first decoded false welcomed frames s).1 ≡ [])
        × ((handle_admin_conn view env conn first decoded false welcomed frames s).2 ≡ conn ∷ [])
        × ((handle_admin_conn view env conn first decoded false welcomed frames s).3.relay
            ≡ s.relay)
        × ((handle_admin_conn view env conn first decoded false welcomed frames s).3.revoked
            ≡ s.revoked)
        × ((c : ℕ)
            → lookup c
                (handle_admin_conn view env conn first decoded false welcomed frames
                  s).3.connections
              ≡ (if c == conn then none else lookup c s.connections))
  unfolding handle_admin_conn close
  handle_admin_conn-reveals view view' env env' conn conn' first decoded welcomed welcomed' frames
        frames' s s' =
      let (told, quiet, untouched, same) =
        answer_admin_none view view' env env' conn conn' first decoded welcomed welcomed' frames
          frames' s s' in
      (
        told,
        quiet,
        rw untouched refl,
        rw same refl,
        rw same refl,
        λ c. rw same (ground (arith, lookup-erase conn c s.connections)),
      )

kill-err :
    (tag : ℕ) (r : Relay) {e : RelayError} {events : List Event} {r' : Relay}
    → kill tag r ≡ (err e, events, r')
    → (events ≡ []) × (r' ≡ r)
unfolding kill kill_found
kill-err tag r {e} {events} {r'} h = elim (List-cases (matching tag r.sessions)) [
  | inl nil ↦ ground arith
  | inr ((id, ref), more, q) ↦ elim (List-cases more) [
    | inl one ↦ absurd (ground arith)
    | inr (b, rest, q') ↦ ground arith
  ]
]

module _ {ℓ} {S : Type ℓ} (view : Relay → S) (env : Surroundings) where
  abbrev Refused : ℕ → List Event → List ℕ → Plane → Plane → Type 0
  Refused n events sockets s s' = (n ≡ 0) × (events ≡ []) × (sockets ≡ []) × (s' ≡ s)

  serve_kill-refused :
      (body : List ℕ) (s : Plane) {d : Detail} {n : ℕ} {events : List Event} {s' : Plane}
      → serve_kill view env body s ≡ (result false d n, events, s')
      → (n ≡ 0) × (events ≡ []) × (s' ≡ s)
  unfolding serve_kill
  serve_kill-refused body s {d} {n} {events} {s'} h = elim (Option-cases (env.kill_tag body)) [
    | inl bad ↦ ground arith
    | inr (tag, q) ↦ elim (Option-cases tag) [
      | inl empty ↦ ground arith
      | inr (t, q') ↦ elim (Result-cases (kill t s.relay).0) [
        | inl (k, done) ↦ absurd (ground arith)
        | inr (e, failed) ↦
            let (quiet, same) =
              kill-err t s.relay {e = e} {events = (kill t s.relay).1} {r' = (kill t s.relay).2}
                (ground arith) in
            ground arith
      ]
    ]
  ]

  serve_reload_crl-refused :
      (conn : ℕ) (s : Plane) {d : Detail} {n : ℕ} {sockets : List ℕ} {s' : Plane}
      → serve_reload_crl view env conn s ≡ (result false d n, sockets, s')
      → (n ≡ 0) × (sockets ≡ []) × (s' ≡ s)
  unfolding serve_reload_crl
  serve_reload_crl-refused conn s {d} {n} {sockets} {s'} h = elim (Option-cases env.revoked_file) [
    | inl unnamed ↦ ground arith
    | inr (file, q) ↦ elim (Result-cases (load_revoked_serials env.fits file)) [
      | inl (serials, done) ↦ absurd (ground arith)
      | inr (e, failed) ↦ ground arith
    ]
  ]

  -- A request whose answer is not OK affects nothing: the count in the answer is 0, no session or
  -- socket is touched, and relay's state is as it was.
  pub serve_admin_request-refused :
      (conn typ : ℕ) (body : List ℕ) (s : Plane) {d : Detail} {n : ℕ} {events : List Event}
      {sockets : List ℕ} {s' : Plane}
      → serve_admin_request view env conn typ body s ≡ (result false d n, events, sockets, s')
      → (n ≡ 0) × (events ≡ []) × (sockets ≡ []) × (s' ≡ s)
  unfolding serve_admin_request
  serve_admin_request-refused conn typ body s {d} {n} {events} {sockets} {s'} h =
      elim (Bool-cases (typ == admin_list)) [
        | inl list ↦ absurd (ground arith)
        | inr p ↦ elim (Bool-cases (typ == admin_kick)) [
          | inl kick ↦ ground arith
          | inr p' ↦ elim (Bool-cases (typ == admin_kill)) [
            | inl kills ↦
                let (none_told, quiet, same) =
                  serve_kill-refused body s {d = d} {n = n} {events = events} {s' = s'}
                    (ground arith) in
                ground arith
            | inr p'' ↦ elim (Bool-cases (typ == admin_reload_crl)) [
              | inl reload ↦
                  let (none_told, quiet, same) =
                    serve_reload_crl-refused conn s {d = d} {n = n} {sockets = sockets} {s' = s'}
                      (ground arith) in
                  ground arith
              | inr q ↦ ground arith
            ]
          ]
        ]
      ]
