-- ===== src/Peer/Slots.antt =====
-- The buffered channel of internal/listen/listen.go and internal/share/share.go that holds one entry
-- for every tunnel in use: what its goroutines work on, the last that started first.
use ggrok.Prelude.{
  ℕ, zero, suc, ◌+◌, ◌≤◌, ◌≡◌, Bool, true, false, List, [], ◌∷◌, Option, none, some, length, ltb,
  arith, if◌then◌else◌,
}
use ggrok.Peer.Session.{max_tunnels}

module _ {ℓ} {A : Type ℓ} where
  -- `select` with a default: whether there was a free slot.
  unfoldable pub take_slot : A → List A → Bool × List A
  take_slot a active =
      if ltb (length active) max_tunnels then (true, a ∷ active) else (false, active)

  -- The n-th goroutine ends.
  unfoldable pub free_slot : ℕ → List A → Option A × List A
  free_slot n [] = (none, [])
  free_slot zero (a ∷ active) = (some a, active)
  free_slot (suc n) (a ∷ active) = let (x, rest) = free_slot n active in (x, a ∷ rest)

  unfoldable pub counted : Option A → ℕ
  counted none = 0
  counted (some a) = 1

  pub take_slot-length :
      (a : A) (active : List A)
      → length active ≤ max_tunnels
      → length (take_slot a active).1 ≤ max_tunnels
  unfolding take_slot
  take_slot-length a active h = ground arith

  pub free_slot-length :
      (n : ℕ) (active : List A)
      → counted (free_slot n active).0 + length (free_slot n active).1 ≡ length active
  unfolding free_slot counted
  free_slot-length n [] = omega arith
  free_slot-length zero (a ∷ active) = omega arith
  free_slot-length (suc n) (a ∷ active) = ground (arith, free_slot-length n active)
