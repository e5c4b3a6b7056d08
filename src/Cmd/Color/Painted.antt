-- ===== src/Cmd/Color/Painted.antt =====
-- cmd/ggrok/color.go: styling adds escape sequences to a text, and changes nothing else.
use mathlib.Core.List.{append-nil}
use ggrok.Prelude.{
  ◌≡◌, ◌≢◌, ◌∙◌, refl, ap, Bool, true, false, List, [], ◌∷◌, ◌++◌, All, All-append, arith,
}
use ggrok.Ca.Serials.{Text}
use ggrok.Cmd.Color.{escape, sgr_reset, join_codes, paint, unpaint}

unpaint_inside :
    (xs rest : Text) → All (λ c. c ≢ 109) xs → unpaint true (xs ++ 109 ∷ rest) ≡ unpaint false rest
unfolding unpaint
unpaint_inside [] rest h = refl
unpaint_inside (c ∷ xs) rest h = ground (arith, h.0, unpaint_inside xs rest h.1)

unpaint_plain :
    (xs rest : Text) → All (λ c. c ≢ 27) xs → unpaint false (xs ++ rest) ≡ xs ++ unpaint false rest
unfolding unpaint
unpaint_plain [] rest h = refl
unpaint_plain (c ∷ xs) rest h = ground (arith, h.0, unpaint_plain xs rest h.1)

whole_text : (text : Text) → All (λ c. c ≢ 27) text → unpaint false text ≡ text
unfolding unpaint
whole_text [] h = refl
whole_text (c ∷ text) h = ground (arith, h.0, whole_text text h.1)

join_codes-plain :
    (cs : List Text) → All (All (λ c. c ≢ 109)) cs → All (λ c. c ≢ 109) (join_codes cs)
unfolding join_codes
join_codes-plain [] h = tt
join_codes-plain (c ∷ []) h = h.0
join_codes-plain (c ∷ d ∷ cs) h =
    All-append (λ x. x ≢ 109) c (59 ∷ join_codes (d ∷ cs)) h.0
      ((λ e. absurd (ground (arith, e))), join_codes-plain (d ∷ cs) h.1)

-- A text without escape characters, painted with codes that have no m, is the same text once the
-- escape sequences are dropped.
pub unpaint-paint :
    (on : Bool) (text : Text) (cs : List Text)
    → All (λ c. c ≢ 27) text
    → All (All (λ c. c ≢ 109)) cs
    → unpaint false (paint on text cs) ≡ text
unfolding paint
unpaint-paint false text cs plain safe = whole_text text plain
unpaint-paint true [] cs plain safe = unfold unpaint in refl
unpaint-paint true (c ∷ text) cs plain safe =
    let t : Text = c ∷ text in
    let codes_in = join_codes cs in
    let start : unpaint false (escape ++ (codes_in ++ (109 ∷ (t ++ sgr_reset))))
        ≡ unpaint true (codes_in ++ (109 ∷ (t ++ sgr_reset))) =
      unfold unpaint in ground arith in
    let end : unpaint false sgr_reset ≡ [] = unfold unpaint in ground arith in
    start
    ∙ unpaint_inside codes_in (t ++ sgr_reset) (join_codes-plain cs safe)
    ∙ unpaint_plain t sgr_reset plain
    ∙ ap (λ (r : Text). t ++ r) end
    ∙ append-nil t
