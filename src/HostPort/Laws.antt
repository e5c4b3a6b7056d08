-- ===== src/HostPort/Laws.antt =====
-- internal/hostport.go: lemmas on ranges and their texts.
use mathlib.Core.List.{append-nil}
use ggrok.Prelude.{
  ℕ, ◌+◌, ◌-◌, ◌≤◌, ◌<◌, ◌≡◌, ◌≢◌, refl, sym, ap, ◌∙◌, ◌⊎◌, inl, inr, List, [], ◌∷◌, ◌++◌, none,
  some, Option-cases, Bool-cases, ok, Result-cases, All, arith, leb,
}
use ggrok.HostPort.{
  Net, Lawful, dash, IsPlain, max_ports, ip, name, HostPort, Range, parse_port, new_host_port,
  host_text, host_port_string, cut, check_span, parse_port_span, parse_range, at, range_string,
  bad_name,
}

module _ (n : Net) where
  check_span-ok :
      (a b : ℕ) {x y : ℕ}
      → check_span n a b ≡ ok (x, y)
      → (x ≡ a) × (y ≡ b) × (0 < a) × (a ≤ b) × (b - a + 1 ≤ max_ports)
  unfolding check_span
  check_span-ok a b {x} {y} e = ground arith

  cut_digits : (s : List ℕ) → All (λ b. b ≢ dash) s → cut n s ≡ (s, none)
  unfolding cut
  cut_digits [] d = refl
  cut_digits (b ∷ s) d = ground (arith, cut_digits s d.1)

  cut-dash : (s t : List ℕ) → All (λ b. b ≢ dash) s → cut n (s ++ dash ∷ t) ≡ (s, some t)
  unfolding cut
  cut-dash [] t d = refl
  cut-dash (b ∷ s) t d = ground (arith, cut-dash s t d.1)

  module _ (laws : Lawful n) where
    parse_port_span-ok :
        (s : List ℕ) {a b : ℕ}
        → parse_port_span n s ≡ ok (a, b)
        → (a ≤ b) × (b < 65536) × (b - a + 1 ≤ max_ports) × ((a ≡ b) ⊎ (0 < a))
    unfolding parse_port_span parse_port
    parse_port_span-ok s {a} {b} e = elim (Option-cases (n.parse_uint (cut n s).0)) [
      | inl bad ↦ absurd (ground arith)
      | inr (first, q) ↦ elim (Option-cases (cut n s).1) [
        | inl alone ↦ ground (arith, laws.parse_uint-bound (cut n s).0 {k = first} q)
        | inr (t, span) ↦ elim (Option-cases (n.parse_uint t)) [
          | inl bad ↦ absurd (ground arith)
          | inr (last, q') ↦
              let checked = check_span-ok first last {x = a} {y = b} (ground arith) in
              ground (arith, laws.parse_uint-bound t {k = last} q')
        ]
      ]
    ]

    new_host_port-ok :
        (s host ports : List ℕ) (port : ℕ) {h : HostPort n}
        → n.split s ≡ some (host, ports)
        → new_host_port n host port ≡ ok h
        → (h.port ≡ port)
          × (new_host_port n (host_text n h.host) port ≡ ok h)
          × ((more rest : List ℕ)
              → All IsPlain more
              → All IsPlain rest
              → n.split (n.join (host_text n h.host) more ++ rest)
                ≡ some (host_text n h.host, more ++ rest))
    unfolding new_host_port
    new_host_port-ok s host ports port {h} e f = elim (Option-cases (n.parse_addr host)) [
      | inr (a, q) ↦
          let its : h ≡ record { host = ip a; port = port } = ground arith in
          rw its (
            refl,
            ground (arith, laws.parse_addr-addr_string host {a = a} q),
            λ more rest pm pr. laws.split-addr_string s host ports more rest {a = a} e q pm pr,
          )
      | inl q ↦ elim (Bool-cases (bad_name n host)) [
        | inl bad ↦ absurd (ground arith)
        | inr fine ↦
            let its : h ≡ record { host = name host; port = port } = ground arith in
            rw its (
              refl,
              ground arith,
              λ more rest pm pr. laws.split-join s host ports more rest e pm pr,
            )
      ]
    ]

    -- What `parse_range` went through.
    parse_range-done :
        (s : List ℕ) {r : Range n}
        → parse_range n s ≡ ok r
        → (host ports : List ℕ) × (first last : ℕ) × (n.split s ≡ some (host, ports))
          × (parse_port_span n ports ≡ ok (first, last))
          × (new_host_port n host first ≡ ok r.base)
          × (r.count ≡ last - first + 1)
    unfolding parse_range
    parse_range-done s {r} e = elim (Option-cases (n.split s)) [
      | inl bad ↦ absurd (ground arith)
      | inr ((host, ports), q) ↦ elim (Result-cases (parse_port_span n ports)) [
        | inr (x, bad) ↦ absurd (ground arith)
        | inl ((first, last), q') ↦ elim (Result-cases (new_host_port n host first)) [
          | inr (x, bad) ↦ absurd (ground arith)
          | inl (h, q'') ↦ (host, ports, first, last, q, q', ground arith, ground arith)
        ]
      ]
    ]

    -- With lawful parsers, a range that was parsed has at most 1024 ports, and for an index within
    -- it, the port at that index is so many above the first, with no wrap-around.
    pub parse_range-bounds :
        (s : List ℕ) (i : ℕ) {r : Range n}
        → parse_range n s ≡ ok r
        → i < r.count
        → (r.count ≤ max_ports)
          × (r.base.port + i < 65536)
          × (at n r i ≡ some (record r.base { port = r.base.port + i }))
    unfolding at
    parse_range-bounds s i {r} e inside =
        let (host, ports, first, last, q, spans, based, size) = parse_range-done s e in
        let (order, small, bounded, pos) = parse_port_span-ok ports spans in
        let (port, again, splits) = new_host_port-ok s host ports first q based in ground arith

    span_of_text : (k : ℕ) → k < 65536 → parse_port_span n (n.itoa k) ≡ ok (k, k)
    unfolding parse_port_span parse_port
    span_of_text k small =
        ground (arith, cut_digits (n.itoa k) (laws.itoa-digits k).1, laws.parse_uint-itoa k small)

    span_of_texts :
        (a b : ℕ)
        → 0 < a
        → a ≤ b
        → b < 65536
        → b - a + 1 ≤ max_ports
        → parse_port_span n (n.itoa a ++ dash ∷ n.itoa b) ≡ ok (a, b)
    unfolding parse_port_span parse_port check_span
    span_of_texts a b pos order small bounded = ground (
      arith,
      cut-dash (n.itoa a) (n.itoa b) (laws.itoa-digits a).1,
      laws.parse_uint-itoa a (omega arith),
      laws.parse_uint-itoa b small,
    )

    parse_range-parts :
        (s host ports : List ℕ) (first last : ℕ) {h : HostPort n}
        → n.split s ≡ some (host, ports)
        → parse_port_span n ports ≡ ok (first, last)
        → new_host_port n host first ≡ ok h
        → parse_range n s ≡ ok (record { base = h; count = last - first + 1 })
    unfolding parse_range
    parse_range-parts s host ports first last {h} q spans based = ground arith

    -- With lawful parsers, a range that was parsed is parsed from its own text to the same range.
    pub parse_range-range_string :
        (s : List ℕ) {r : Range n}
        → parse_range n s ≡ ok r
        → parse_range n (range_string n r) ≡ ok r
    unfolding range_string host_port_string
    parse_range-range_string s {r} e =
        let (host, ports, first, last, q, spans, based, size) = parse_range-done s e in
        let (order, small, bounded, pos) = parse_port_span-ok ports spans in
        let (port, again, splits) = new_host_port-ok s host ports first q based in
        let text : List ℕ = host_text n r.base.host in
        elim (Bool-cases (leb r.count 1)) [
          | inl one ↦
              let same : last ≡ first = ground arith in
              let alone : n.split (n.join text (n.itoa first)) ≡ some (text, n.itoa first) =
                ap n.split (sym (append-nil (n.join text (n.itoa first))))
                ∙ splits (n.itoa first) [] (laws.itoa-digits first).0 tt
                ∙ ap (λ (t : List ℕ). some (text, t)) (append-nil (n.itoa first)) in
              let parsed =
                parse_range-parts (n.join text (n.itoa first)) text (n.itoa first) first first alone
                  (span_of_text first (omega arith)) again in
              ground arith
          | inr more ↦
              let upper = parse_range-bounds s (r.count - 1) e (ground arith) in
              let tail : List ℕ = dash ∷ n.itoa last in
              let plain : All IsPlain tail = ((ground arith), (laws.itoa-digits last).0) in
              let parsed =
                parse_range-parts (n.join text (n.itoa first) ++ tail) text (n.itoa first ++ tail)
                  first last (splits (n.itoa first) tail (laws.itoa-digits first).0 plain)
                  (span_of_texts first last (ground arith) order small bounded) again in
              ground arith
        ]
