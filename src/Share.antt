-- ===== src/Share.antt =====
-- internal/share/share.go: the publisher's side. A goroutine works on the request id and the port
-- index that relay asked for; what OpenTunnel and the dial of the local service give are arguments of
-- its steps.
pub mod Requests
use ggrok.Prelude.{
  ℕ, Bool, true, false, not, ◌&&◌, List, [], ◌∷◌, ◌++◌, Option, none, some, Result, ok, err, ◌==◌,
  if◌then◌else◌,
}
use ggrok.HostPort.{Net, HostPort, Range, at}
use ggrok.Proto.Control.{control_request_data, read_request_data}
use ggrok.Peer.Slots.{take_slot}

pub data Failure : Type 0 where
  limit_reached outside_range tunnel_failed local_unreachable : Failure

-- `n` is the host parser of internal/hostport.go; a tunnel has the number of its request.
module _ (n : Net) where
  pub data Action : Type 0 where
    -- A goroutine for a request on a port, its data connection, and the dial of the local service.
    starts : ℕ → ℕ → Action
    opens : ℕ → ℕ → Action
    dials : HostPort n → Action
    -- The splice of a tunnel with the service, and the close of a tunnel.
    splices closes : ℕ → Action
    reports : Failure → Action

  -- `reportForwardError`.
  unfoldable pub report_forward_error : Bool → Bool → Option Failure → List Action
  report_forward_error canceled has_report none = []
  report_forward_error canceled has_report (some f) =
      if not canceled && has_report then reports f ∷ [] else []

  -- The Handle of runTCP, which never ends the session.
  unfoldable pub handle : Bool → Bool → ℕ → List ℕ → List (ℕ × ℕ) → List Action × List (ℕ × ℕ)
  handle canceled has_report typ payload active =
      if not (typ == control_request_data) then ([], active) else elim (read_request_data payload) [
        | err e ↦ ([], active)
        | ok (req_id, port) ↦
            let (took, active') = take_slot (req_id, port) active in
            if took
            then (starts req_id port ∷ [], active')
            else (report_forward_error canceled has_report (some limit_reached), active)
      ]

  -- `fulfill`: what it does, and its error.
  unfoldable pub fulfill : Range n → ℕ → ℕ → Bool → Bool → List Action × Option Failure
  fulfill addr req_id port opened reached = elim (at n addr port) [
    | none ↦ ([], some outside_range)
    | some local ↦ elim opened [
      | false ↦ (opens req_id port ∷ [], some tunnel_failed)
      | true ↦ elim reached [
        | false ↦ (opens req_id port ∷ dials local ∷ closes req_id ∷ [], some local_unreachable)
        | true ↦ (opens req_id port ∷ dials local ∷ splices req_id ∷ closes req_id ∷ [], none)
      ]
    ]
  ]
