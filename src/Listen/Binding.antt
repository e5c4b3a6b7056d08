-- ===== src/Listen/Binding.antt =====
-- internal/listen/listen.go: a range is bound as a whole or not at all.
use mathlib.Core.Path.{subst}
use mathlib.Core.List.{append_assoc, append-nil}
use ggrok.Prelude.{
  ℕ, zero, suc, ◌+◌, ◌≤◌, ◌<◌, ◌≡◌, ◌∙◌, refl, sym, List, [], ◌∷◌, ◌++◌, Option, some, Option-cases,
  Result, ok, err, inl, inr, length, arith,
}
use ggrok.HostPort.{Net, HostPort, Range, len, at}
use ggrok.Listen.{bind_each, bind_range}

module _ (n : Net) (binds : HostPort n → Option ℕ) where
  -- The listeners of consecutive ports of a range, in order.
  unfoldable pub Bound : Range n → ℕ → List ℕ → Type 0
  Bound addr i [] = Unit {0}
  Bound addr i (ln ∷ lns) =
      (port : HostPort n) × (at n addr i ≡ some port)
      × (binds port ≡ some ln)
      × Bound addr (i + 1) lns

  -- What bindRange gives back, or closes: those of the first ports, all of them if it succeeds.
  Unwound : Range n → ℕ → ℕ → List ℕ → Result (List ℕ) (List ℕ) → Type 0
  Unwound addr i more before (ok lns) =
      (new : List ℕ) × (lns ≡ before ++ new) × (length new ≡ more) × Bound addr i new
  Unwound addr i more before (err lns) =
      (new : List ℕ) × (lns ≡ before ++ new) × (suc (length new) ≤ more) × Bound addr i new

  Unwound-step :
      (addr : Range n) (i more ln : ℕ) (before : List ℕ) (port : HostPort n)
      (r : Result (List ℕ) (List ℕ))
      → at n addr i ≡ some port
      → binds port ≡ some ln
      → Unwound addr (i + 1) more (before ++ ln ∷ []) r
      → Unwound addr i (suc more) before r
  unfolding Unwound Bound
  Unwound-step addr i more ln before port (ok lns) p b (new, e, size, rest) =
      (ln ∷ new, e ∙ append_assoc before (ln ∷ []) new, omega (arith, size), (port, p, b, rest))
  Unwound-step addr i more ln before port (err lns) p b (new, e, size, rest) =
      (ln ∷ new, e ∙ append_assoc before (ln ∷ []) new, omega (arith, size), (port, p, b, rest))

  bind_each-Unwound :
      (addr : Range n) (i more : ℕ) (before : List ℕ)
      → Unwound addr i more before (bind_each n binds addr i more before)
  unfolding bind_each Unwound Bound
  bind_each-Unwound addr i zero before = ([], sym (append-nil before), refl, tt)
  bind_each-Unwound addr i (suc more) before =
      let none_new : Unwound addr i (suc more) before (err before) =
        ([], sym (append-nil before), omega arith, tt) in
      elim (Option-cases (at n addr i)) [
        | inl outside ↦
            let same : bind_each n binds addr i (suc more) before ≡ err before = ground arith in
            rw same none_new
        | inr (port, p) ↦ elim (Option-cases (binds port)) [
          | inl taken ↦
              let same : bind_each n binds addr i (suc more) before ≡ err before = ground arith in
              rw same none_new
          | inr (ln, b) ↦
              let same : bind_each n binds addr i (suc more) before
                  ≡ bind_each n binds addr (i + 1) more (before ++ ln ∷ []) =
                ground arith in
              rw same (
                Unwound-step addr i more ln before port
                  (bind_each n binds addr (i + 1) more (before ++ ln ∷ [])) p b
                  (bind_each-Unwound addr (i + 1) more (before ++ ln ∷ [])))
        ]
      ]

  -- A range that is bound has a listener for each of its ports, in order.
  pub bind_range-ok :
      (addr : Range n) {lns : List ℕ}
      → bind_range n binds addr ≡ ok lns
      → (length lns ≡ len n addr) × Bound addr 0 lns
  unfolding bind_range Unwound
  bind_range-ok addr {lns} e =
      let (new, same, size, rest) : Unwound addr 0 (len n addr) [] (ok lns) =
        subst (λ r. Unwound addr 0 (len n addr) [] r) e
          (bind_each-Unwound addr 0 (len n addr) []) in
      (rw same size, rw same rest)

  -- A range that cannot be bound closes the listeners of its first ports, in order, which are all
  -- that were bound.
  pub bind_range-err :
      (addr : Range n) {lns : List ℕ}
      → bind_range n binds addr ≡ err lns
      → (length lns < len n addr) × Bound addr 0 lns
  unfolding bind_range Unwound
  bind_range-err addr {lns} e =
      let (new, same, size, rest) : Unwound addr 0 (len n addr) [] (err lns) =
        subst (λ r. Unwound addr 0 (len n addr) [] r) e
          (bind_each-Unwound addr 0 (len n addr) []) in
      (rw same (omega (arith, size)), rw same rest)
