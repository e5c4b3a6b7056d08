-- ===== src/Share/Requests.antt =====
-- internal/share/share.go with relay's side of a request (internal/relay/registry.go): which requests
-- the publisher serves, and at which local address.
use ggrok.Prelude.{
  ◌≢◌, ◌&&◌, ℕ, ◌+◌, ◌^◌, ◌<◌, ◌≡◌, Bool, true, List, [], ◌∷◌, ◌++◌, none, some, Bool-cases, ok,
  inl, inr, length, ltb, arith, if◌then◌else◌,
}
use ggrok.HostPort.{Net, HostPort, Lawful, Range, at, parse_range}
use ggrok.HostPort.Laws.{parse_range-bounds}
use ggrok.Proto.Io.{Conn, done, left}
use ggrok.Proto.Control.{control_request_data, read_control_frame, write_request_data}
use ggrok.Proto.Control.Laws.{write_request_data-read}
use ggrok.Peer.Session.{max_tunnels}
use ggrok.Peer.Slots.{take_slot}
use ggrok.Relay.Session.{Session, Peer}
use ggrok.Relay.Registry.{Relay}
use ggrok.Share.{
  Action, reports, limit_reached, outside_range, starts, opens, dials, splices, closes,
  report_forward_error, handle, fulfill,
}

module _ (n : Net) where
  -- The addresses that are dialed, and the requests whose tunnel is spliced and closed.
  unfoldable pub dialed : List (Action n) → List (HostPort n)
  dialed [] = []
  dialed (starts id port ∷ xs) = dialed xs
  dialed (opens id port ∷ xs) = dialed xs
  dialed (dials local ∷ xs) = local ∷ dialed xs
  dialed (splices id ∷ xs) = dialed xs
  dialed (closes id ∷ xs) = dialed xs
  dialed (reports f ∷ xs) = dialed xs

  unfoldable pub spliced : List (Action n) → List ℕ
  spliced [] = []
  spliced (starts id port ∷ xs) = spliced xs
  spliced (opens id port ∷ xs) = spliced xs
  spliced (dials local ∷ xs) = spliced xs
  spliced (splices id ∷ xs) = id ∷ spliced xs
  spliced (closes id ∷ xs) = spliced xs
  spliced (reports f ∷ xs) = spliced xs

  unfoldable pub closed : List (Action n) → List ℕ
  closed [] = []
  closed (starts id port ∷ xs) = closed xs
  closed (opens id port ∷ xs) = closed xs
  closed (dials local ∷ xs) = closed xs
  closed (splices id ∷ xs) = closed xs
  closed (closes id ∷ xs) = id ∷ closed xs
  closed (reports f ∷ xs) = closed xs

  -- A request is served at a local address: not refused, and with no other dial, splice or close.
  abbrev pub Serves : Range n → ℕ → ℕ → HostPort n → Bool → Bool → Type 0
  Serves r req port local opened reached =
      ((fulfill n r req port opened reached).1 ≢ some outside_range)
      × (dialed (fulfill n r req port opened reached).0 ≡ (if opened then local ∷ [] else []))
      × (spliced (fulfill n r req port opened reached).0
          ≡ (if opened && reached then req ∷ [] else []))
      × (closed (fulfill n r req port opened reached).0 ≡ (if opened then req ∷ [] else []))

  -- The request that relay writes, with a 64-bit id and a 16-bit port, reaches the publisher's
  -- handler, which starts a goroutine for this id and port if fewer than 256 run, and otherwise
  -- reports the limit.
  pub handle-write_request_data :
      (id port : ℕ) (canceled has_report : Bool) (active : List (ℕ × ℕ)) (rest : List ℕ)
      (w r : Conn) {w' : Conn}
      → id < 256 ^ 8
      → port < 65536
      → w.outgoing ≡ []
      → write_request_data id port w ≡ done tt w'
      → r.incoming ≡ w'.outgoing ++ rest
      → (payload : List ℕ) × (read_control_frame r
          ≡ done (control_request_data, payload) (left rest r))
        × (handle n canceled has_report control_request_data payload active ≡ (
            if ltb (length active) max_tunnels
            then (starts id port ∷ [], (id, port) ∷ active)
            else (report_forward_error n canceled has_report (some limit_reached), active)))
  unfolding handle take_slot
  handle-write_request_data id port canceled has_report active rest w r {w'} u64 u16 clean sent
        got =
      let (payload, read, back) =
        write_request_data-read id port rest w r {w' = w'} u64 u16 clean sent got in
      (payload, read, ground arith)

  module _ (laws : Lawful n) where
    -- With lawful parsers, a publisher whose range was parsed opens a tunnel for a port index
    -- exactly if it is within the range, and then dials the port that is so many above the first.
    pub fulfill-parse_range :
        (s : List ℕ) (id port : ℕ) {r : Range n}
        → parse_range n s ≡ ok r
        → fulfill n r id port true true ≡ (
            if ltb port r.count
            then (
              opens id port
                  ∷ dials (record r.base { port = r.base.port + port })
                  ∷ splices id
                  ∷ closes id
                  ∷ [],
              none,
            )
            else ([], some outside_range))
    unfolding fulfill at
    fulfill-parse_range s id port {r} e = elim (Bool-cases (ltb port r.count)) [
      | inl inside ↦
          let (small, fits, there) = parse_range-bounds n laws s port {r = r} e (ground arith) in
          ground arith
      | inr outside ↦ ground arith
    ]
