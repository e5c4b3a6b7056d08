-- ===== src/Relay/Admin/Snapshots.antt =====
-- internal/relay/admin.go with internal/relay/registry.go: that the tag of a snapshot names what Kill
-- ends.
use ggrok.Prelude.{
  ℕ, suc, ◌≡◌, ◌≢◌, refl, List, [], ◌∷◌, none, some, Option-cases, List-cases, inl, inr, All,
  length, arith, ◌==◌, if◌then◌else◌,
}
use ggrok.Prelude.Maps.{lookup}
use ggrok.Relay.Registry.{Relay, matching, kill_found, kill}
use ggrok.Relay.Registry.Broker.{succeeded}
use ggrok.Relay.Admin.{SessionSummary, summarize, summarize_all, snapshot}

module _ {ℓ} (Identity : Type ℓ) (identity : ℕ → Identity) (carried : ℕ → ℕ × ℕ) where
  -- How many sessions of a snapshot show a tag.
  unfoldable pub shown : ℕ → List (SessionSummary Identity) → ℕ
  shown tag [] = 0
  shown tag (s ∷ ss) = let rest = shown tag ss in if s.tag == tag then suc rest else rest

  -- Every SessionID is bound to a session on the heap.
  abbrev pub IsLive : Relay → ℕ × ℕ → Type 0
  IsLive r e = lookup e.1 r.heap ≢ none

  shown-summarize_all :
      (tag : ℕ) (r : Relay) (m : List (ℕ × ℕ))
      → All (IsLive r) m
      → shown tag (summarize_all Identity identity carried r m) ≡ length (matching tag m)
  unfolding shown summarize_all matching summarize
  shown-summarize_all tag r [] live = refl
  shown-summarize_all tag r ((id, ref) ∷ m) live =
      let rest = shown-summarize_all tag r m live.1 in
      elim (Option-cases (lookup ref r.heap)) [
        | inl gone ↦ absurd (live.0 gone)
        | inr (s, there) ↦ ground arith
      ]

  -- If every SessionID is bound to a session on the heap, a Kill of a tag succeeds exactly if one
  -- session of the snapshot shows that tag.
  pub kill-snapshot :
      (tag : ℕ) (r : Relay)
      → All (IsLive r) r.sessions
      → (succeeded (kill tag r)).0 ≡ some (shown tag (snapshot Identity identity carried r) == 1)
  unfolding kill kill_found succeeded snapshot
  kill-snapshot tag r live =
      let same = shown-summarize_all tag r r.sessions live in
      elim (List-cases (matching tag r.sessions)) [
        | inl nil ↦ ground arith
        | inr ((id, ref), more, e) ↦ elim (List-cases more) [
          | inl one ↦ ground arith
          | inr (x, rest, e') ↦ ground arith
        ]
      ]
