-- ===== src/Examples/HostPort.antt =====
-- A range with parsers small enough to compute with: a host ends at the first colon, a number is one
-- byte from 100 on, and there is one address.
use mathlib.Core.List.{append_assoc}
use ggrok.Prelude.{
  ℕ, ◌+◌, ◌-◌, ◌<◌, ◌≡◌, ◌≢◌, refl, ap, ◌∙◌, inl, inr, List, [], ◌∷◌, ◌++◌, All, Option, none, some,
  Option-cases, Bool-cases, ok, arith, ltb, ◌==◌, if◌then◌else◌,
}
use ggrok.HostPort.{
  Net, Lawful, dash, name, Range, parse_port, blank, bad_name, new_host_port, cut, check_span,
  parse_port_span, parse_range, range_string,
}
use ggrok.HostPort.Laws.{parse_range-range_string}

pub toy_split : List ℕ → Option (List ℕ × List ℕ)
toy_split [] = none
toy_split (b ∷ bs) =
    let rest = toy_split bs in
    if b == 58 then some ([], bs) else elim rest [ none ↦ none | some (h, p) ↦ some (b ∷ h, p) ]

abbrev pub toy_addr : List ℕ → Option (Unit {0})
toy_addr [] = none
toy_addr (b ∷ []) = if b == 1 then some tt else none
toy_addr (b ∷ c ∷ bs) = none

abbrev pub toy_uint : List ℕ → Option ℕ
toy_uint [] = none
toy_uint (x ∷ []) = if ltb x 100 then none else if ltb (x - 100) 65536 then some (x - 100) else none
toy_uint (x ∷ y ∷ bs) = none

abbrev pub toy_net : Net
toy_net = record {
  Addr = Unit {0};
  split = toy_split;
  join = λ host port. host ++ 58 ∷ port;
  parse_addr = toy_addr;
  addr_string = λ a. 1 ∷ [];
  parse_uint = toy_uint;
  itoa = λ k. (k + 100) ∷ [];
}

toy_split-host : (s : List ℕ) {h p : List ℕ} → toy_split s ≡ some (h, p) → All (λ b. b ≢ 58) h
unfolding toy_split
toy_split-host [] e = absurd (ground arith)
toy_split-host (b ∷ bs) {h} {p} e = elim (Bool-cases (b == 58)) [
  | inl colon ↦ let nil : h ≡ [] = ground arith in rw nil tt
  | inr more ↦ elim (Option-cases (toy_split bs)) [
    | inl bad ↦ absurd (ground arith)
    | inr ((h', p'), q) ↦
        let same : h ≡ b ∷ h' = ground arith in
        rw same (ground arith, toy_split-host bs {h = h'} {p = p'} q)
  ]
]

toy_split-append : (h t : List ℕ) → All (λ b. b ≢ 58) h → toy_split (h ++ 58 ∷ t) ≡ some (h, t)
unfolding toy_split
toy_split-append [] t d = refl
toy_split-append (b ∷ h) t d = ground (arith, toy_split-append h t d.1)

toy_split-join :
    (h more rest : List ℕ)
    → All (λ b. b ≢ 58) h
    → toy_split ((h ++ 58 ∷ more) ++ rest) ≡ some (h, more ++ rest)
toy_split-join h more rest d =
    ap toy_split (append_assoc h (58 ∷ more) rest) ∙ toy_split-append h (more ++ rest) d

toy_uint-bound : (s : List ℕ) {k : ℕ} → toy_uint s ≡ some k → k < 65536
toy_uint-bound [] e = absurd (ground arith)
toy_uint-bound (x ∷ []) e = ground arith
toy_uint-bound (x ∷ y ∷ bs) e = absurd (ground arith)

pub toy_net-Lawful : Lawful toy_net
toy_net-Lawful = record {
  split-join = λ s host port more rest e pm pr.
      toy_split-join host more rest (toy_split-host s {h = host} {p = port} e);
  parse_addr-addr_string = λ s {a} e. refl;
  split-addr_string =
      λ s host port more rest {a} e q pm pr. toy_split-join (1 ∷ []) more rest (ground arith);
  parse_uint-itoa = λ k small. ground arith;
  parse_uint-bound = λ s {k} e. toy_uint-bound s {k = k} e;
  itoa-digits = λ k. (ground arith, ground arith);
}

-- The text `h:` and the ports from 8 to 11.
abbrev pub text : List ℕ
text = 104 ∷ 58 ∷ 108 ∷ dash ∷ 111 ∷ []

abbrev pub range : Range toy_net
range = record { base = record { host = name (104 ∷ []); port = 8 }; count = 4 }

pub text_parses : parse_range toy_net text ≡ ok range
unfolding parse_range parse_port_span parse_port cut check_span new_host_port blank bad_name
    toy_split
text_parses = refl

parse_range-range_string_example : parse_range toy_net (range_string toy_net range) ≡ ok range
parse_range-range_string_example =
    parse_range-range_string toy_net toy_net-Lawful text {r = range} text_parses
