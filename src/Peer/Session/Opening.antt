-- ===== src/Peer/Session/Opening.antt =====
-- internal/peer/session.go: what is left open, and what relay has been told when it refuses a tunnel.
use ggrok.Prelude.{
  ℕ, ◌≤◌, ◌≡◌, ◌≢◌, refl, Bool, true, false, List, [], ◌∷◌, Option, none, some, inl, inr,
  Option-cases, Result, ok, err, length, arith,
}
use ggrok.Proto.Error.{Error}
use ggrok.Proto.Io.{Io, Conn, Outcome-cases, failed, write_full-fits, read_full-enough, left, sent}
use ggrok.Proto.ConnKind.{conn_data}
use ggrok.Proto.Hello.{read_ack, ack_ok, status_error}
use ggrok.Proto.Attach.{
  Attach, attach_subscriber, encode_attach, write_attach_with, write_data_attach,
}
use ggrok.Proto.Crypto.{Primitives, Credentials}
use ggrok.Proto.Claim.{status_result}
use ggrok.Peer.Session.{PeerError, dial, dialed, attach, open_tunnel, connect}

abbrev pub is_ok {ℓ} : {A : Type ℓ} → Result PeerError A → Bool
is_ok (ok a) = true
is_ok (err e) = false

abbrev pub is_open : Option (Conn × Bool) → Bool
is_open none = false
is_open (some (c, live)) = live

dialed-open :
    {A : Type 0} (m : Io A) (d : Option (Bool × List ℕ × Conn))
    → is_open (dialed m d).1 ≡ is_ok (dialed m d).0
unfolding dialed dial
dialed-open m none = refl
dialed-open m (some (is_tls, protocol, c)) = elim (Outcome-cases (m c)) [
  | inl (a, c', q) ↦ ground arith
  | inr (e, c', q) ↦ ground arith
]

status_error-none : (status : ℕ) → status_error status ≡ none → status ≡ ack_ok
unfolding status_error
status_error-none status e = ground arith

module _ (p : Primitives) where
  -- When relay acks a subscriber's Attach with another status than OK, the attach fails with that
  -- status's error, and has written the Attach and nothing else.
  pub attach-refused :
      (random : Option (List ℕ)) (creds : Credentials p) (role status : ℕ) (a : Attach)
      (rest : List ℕ) (c : Conn)
      → a.kind ≡ attach_subscriber
      → status ≢ ack_ok
      → c.incoming ≡ status ∷ rest
      → length (conn_data ∷ encode_attach (record a { session_id = creds.id })) ≤ c.room
      → (e : Error) × (status_error status ≡ some e)
        × (attach p random creds role a c
            ≡ failed e (
                left rest
                  (sent (conn_data ∷ encode_attach (record a { session_id = creds.id })) c)))
  unfolding attach write_data_attach write_attach_with read_ack status_result
  attach-refused random creds role status a rest c sub bad got room =
      let msg = conn_data ∷ encode_attach (record a { session_id = creds.id }) in
      let w = write_full-fits msg c room in
      let r = read_full-enough 1 (status ∷ []) rest (sent msg c) got refl in
      elim (Option-cases (status_error status)) [
        | inl fine ↦ absurd (bad (status_error-none status fine))
        | inr (e, q) ↦ (e, q, ground arith)
      ]

  -- OpenTunnel and connect leave the connection that they dialed open exactly if they succeed.
  pub open_tunnel-open :
      (random : Option (List ℕ)) (signed : List ℕ) (creds : Credentials p) (role mode ports : ℕ)
      (a : Attach) (d : Option (Bool × List ℕ × Conn))
      → (is_open (open_tunnel p random creds role a d).1
          ≡ is_ok (open_tunnel p random creds role a d).0)
        × (is_open (connect p signed role mode ports creds d).1
            ≡ is_ok (connect p signed role mode ports creds d).0)
  unfolding open_tunnel connect
  open_tunnel-open random signed creds role mode ports a d = (dialed-open _ d, dialed-open _ d)
