-- ===== src/Examples/Reconnect.antt =====
-- A peer that is dropped, comes back, and is turned away for good.
use ggrok.Prelude.{ℕ, ◌-◌, ◌≡◌, ◌<◌, refl, true, false, List, [], ◌∷◌, none, some, arith}
use ggrok.Peer.Reconnect.{
  transport, denied, retryable, backoff, retry_delay, Attempt, Notice, on_ready, on_disconnect,
  failed, settle, round, serve_from,
}
use ggrok.Peer.Reconnect.Laws.{GaveUp, IsPassing, serve_from-failed, serve_from-passing}

abbrev draw : ℕ → ℕ
draw n = n - 1

draw_below : (n : ℕ) → 0 < n → draw n < n
draw_below n h = omega arith

abbrev drops : Attempt
drops = record {
  connect = none;
  ready = none;
  ended = transport;
  lasted = 5;
  canceled = false;
  wait_canceled = false;
  draw = λ n. 0;
}

abbrev turned_away : Attempt
turned_away = record drops { connect = some denied }

abbrev notices : List Notice
notices = on_ready ∷ on_disconnect transport 250000000 ∷ []

peer_serves : serve_from false false 0 (drops ∷ turned_away ∷ []) ≡ (notices, some (failed denied))
unfolding serve_from round settle retryable retry_delay backoff
peer_serves = refl

serve_from-failed_example : GaveUp false false notices denied
serve_from-failed_example =
    serve_from-failed false false 0 (drops ∷ turned_away ∷ []) {ns = notices} {e = denied}
      peer_serves

drops-IsPassing : IsPassing drops
unfolding retryable
drops-IsPassing = record { alive = refl; waits = refl; refused = refl; dropped = refl }

serve_from-passing_example : (serve_from true true 4 (drops ∷ drops ∷ [])).1 ≡ none
serve_from-passing_example =
    serve_from-passing true 4 (drops ∷ drops ∷ []) (drops-IsPassing, (drops-IsPassing, tt))
