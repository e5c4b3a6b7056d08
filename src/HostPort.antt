-- ===== src/HostPort.antt =====
-- internal/hostport.go: host:port pairs and port ranges. A string is the list of its bytes. What the
-- standard library does with addresses and numbers (net, net/netip, strconv) is a parameter.
pub mod Laws
use ggrok.Prelude.{
  ℕ, ◌+◌, ◌-◌, ◌%◌, ◌^◌, ◌≡◌, ◌<◌, ◌≢◌, Bool, true, false, ◌||◌, List, [], ◌∷◌, ◌++◌, Option, none,
  some, Result, ok, err, All, leb, ltb, ◌==◌, if◌then◌else◌,
}

pub record Net : Type 1 where
  pub Addr : Type 0
  -- net.SplitHostPort and net.JoinHostPort.
  pub split : List ℕ → Option (List ℕ × List ℕ)
  pub join : List ℕ → List ℕ → List ℕ
  -- netip.ParseAddr and Addr.String.
  pub parse_addr : List ℕ → Option Addr
  pub addr_string : Addr → List ℕ
  -- strconv.ParseUint(s, 10, 16) and strconv.Itoa.
  pub parse_uint : List ℕ → Option ℕ
  pub itoa : ℕ → List ℕ

abbrev pub dash : ℕ
dash = 45

-- No colon, which ends a host, and no bracket, which quotes one.
abbrev pub IsPlain : ℕ → Type 0
IsPlain b = (b ≢ 58) × (b ≢ 91) × (b ≢ 93)

pub record Lawful (n : Net) : Type 0 where
  -- What was joined is split into the host and the port, whatever plain text is appended to the port.
  pub split-join :
      (s host port more rest : List ℕ)
      → n.split s ≡ some (host, port)
      → All IsPlain more
      → All IsPlain rest
      → n.split (n.join host more ++ rest) ≡ some (host, more ++ rest)
  -- The canonical text of an address stands for the address, and may be a host.
  pub parse_addr-addr_string :
      (s : List ℕ) {a : n.Addr} → n.parse_addr s ≡ some a → n.parse_addr (n.addr_string a) ≡ some a
  pub split-addr_string :
      (s host port more rest : List ℕ) {a : n.Addr}
      → n.split s ≡ some (host, port)
      → n.parse_addr host ≡ some a
      → All IsPlain more
      → All IsPlain rest
      → n.split (n.join (n.addr_string a) more ++ rest) ≡ some (n.addr_string a, more ++ rest)
  pub parse_uint-itoa : (k : ℕ) → k < 65536 → n.parse_uint (n.itoa k) ≡ some k
  pub parse_uint-bound : (s : List ℕ) {k : ℕ} → n.parse_uint s ≡ some k → k < 65536
  -- Digits are neither a colon, nor a bracket, nor a dash.
  pub itoa-digits : (k : ℕ) → All IsPlain (n.itoa k) × All (λ b. b ≢ dash) (n.itoa k)

pub data HostPortError : Type 0 where
  invalid_host_port invalid_range : HostPortError

abbrev pub max_ports : ℕ
max_ports = 1024

module _ (n : Net) where
  -- The two kinds of a host.
  pub data Host : Type 0 where
    ip : n.Addr → Host
    name : List ℕ → Host

  pub record HostPort : Type 0 where
    pub host : Host
    pub port : ℕ

  pub record Range : Type 0 where
    pub base : HostPort
    pub count : ℕ

  unfoldable pub parse_port : List ℕ → Result HostPortError ℕ
  parse_port s = elim (n.parse_uint s) [ none ↦ err invalid_host_port | some k ↦ ok k ]

  -- `strings.ContainsAny(host, " \t")`.
  unfoldable pub blank : List ℕ → Bool
  blank [] = false
  blank (b ∷ bs) = if b == 32 then true else if b == 9 then true else blank bs

  unfoldable pub bad_name : List ℕ → Bool
  bad_name [] = true
  bad_name (b ∷ bs) = blank (b ∷ bs)

  unfoldable pub new_host_port : List ℕ → ℕ → Result HostPortError HostPort
  new_host_port host port = elim (n.parse_addr host) [
    | some a ↦ ok (record { host = ip a; port = port })
    | none ↦
        if bad_name host
        then err invalid_host_port
        else ok (record { host = name host; port = port })
  ]

  unfoldable pub parse : List ℕ → Result HostPortError HostPort
  parse s = elim (n.split s) [
    | none ↦ err invalid_host_port
    | some (host, port_str) ↦ elim (parse_port port_str) [
      | err e ↦ err e
      | ok port ↦ new_host_port host port
    ]
  ]

  abbrev pub host_text : Host → List ℕ
  host_text (ip a) = n.addr_string a
  host_text (name s) = s

  unfoldable pub host_port_string : HostPort → List ℕ
  host_port_string h = n.join (host_text h.host) (n.itoa h.port)

  -- `strings.Cut(s, "-")`: what is before the first dash, and what is behind it.
  unfoldable pub cut : List ℕ → List ℕ × Option (List ℕ)
  cut [] = ([], none)
  cut (b ∷ bs) =
      if b == dash then ([], some bs) else let (before, behind) = cut bs in (b ∷ before, behind)

  -- The switch of parsePortSpan.
  unfoldable pub check_span : ℕ → ℕ → Result HostPortError (ℕ × ℕ)
  check_span first last =
      if first == 0
      then err invalid_range
      else if ltb last first
      then err invalid_range
      else if ltb max_ports (last - first + 1)
      then err invalid_range
      else ok (first, last)

  unfoldable pub parse_port_span : List ℕ → Result HostPortError (ℕ × ℕ)
  parse_port_span s =
      let (first_str, last_str) = cut s in
      elim (parse_port first_str) [
        | err e ↦ err e
        | ok first ↦ elim last_str [
          | none ↦ ok (first, first)
          | some t ↦ elim (parse_port t) [ err e ↦ err e | ok last ↦ check_span first last ]
        ]
      ]

  unfoldable pub parse_range : List ℕ → Result HostPortError Range
  parse_range s = elim (n.split s) [
    | none ↦ err invalid_host_port
    | some (host, ports) ↦ elim (parse_port_span ports) [
      | err e ↦ err e
      | ok (first, last) ↦ elim (new_host_port host first) [
        | err e ↦ err e
        | ok base ↦ ok (record { base = base; count = last - first + 1 })
      ]
    ]
  ]

  unfoldable pub len : Range → ℕ
  len r = r.count

  -- An index below zero is no number here; the port is a uint16.
  unfoldable pub at : Range → ℕ → Option HostPort
  at r i =
      if leb r.count i then none else some (record r.base { port = (r.base.port + i) % 2 ^ 16 })

  unfoldable pub range_string : Range → List ℕ
  range_string r = if leb r.count 1 then host_port_string r.base else elim (at r (r.count - 1)) [
    | none ↦ host_port_string r.base ++ dash ∷ n.itoa 0
    | some last ↦ host_port_string r.base ++ dash ∷ n.itoa last.port
  ]
