-- ===== src/Proto/Auth/Laws.antt =====
-- internal/proto/auth.go: lemmas on the authentication of a data connection.
use mathlib.Core.List.{append_assoc, append-nil}
use ggrok.Prelude.{
  ℕ, ◌≤◌, ◌<◌, ◌≡◌, ◌⊎◌, inl, inr, List, [], ◌++◌, ap, sym, ◌∙◌, refl, arith, length, take, drop,
  take-append_eq, drop-append_eq, some, same_bytes_refl, same_bytes→eq,
}
use ggrok.Prelude.Bytes.{codes, put_be, get_be, get_be-put_be}
use ggrok.Proto.Hello.{role_publish, role_subscribe}
use ggrok.Proto.Error.{Error}
use ggrok.Proto.Io.{
  Conn, Outcome-cases, done, failed, read_full-enough, read_full_cases, write_full-fits,
  write_full_cases, left, sent,
}
use ggrok.Proto.Crypto.{Primitives, Lawful, Credentials}
use ggrok.Proto.Claim.{challenge_size}
use ggrok.Proto.Auth.{
  transcript, verify_proof, tunnel_mac, publisher_proof, subscriber_proof, exchange_challenges,
  exchange_proofs, authenticate,
}

-- Two transcripts over challenges of the right size and 16-bit ports are the same only if both
-- challenges and the port are.
pub transcript-injective :
    (x y x' y' : List ℕ) (port port' : ℕ)
    → length x ≡ challenge_size
    → length y ≡ challenge_size
    → length x' ≡ challenge_size
    → length y' ≡ challenge_size
    → port < 65536
    → port' < 65536
    → transcript x y port ≡ transcript x' y' port'
    → (x ≡ x') × (y ≡ y') × (port ≡ port')
unfolding transcript
transcript-injective x y x' y' port port' lx ly lx' ly' hp hp' e =
    let tail : (y ++ (x ++ put_be 2 port)) ≡ (y' ++ (x' ++ put_be 2 port')) = ap (drop 7) e in
    let same_y : y ≡ y' =
      sym (take-append_eq 32 y (x ++ put_be 2 port) ly)
      ∙ ap (take 32) tail
      ∙ take-append_eq 32 y' (x' ++ put_be 2 port') ly' in
    let rest : (x ++ put_be 2 port) ≡ (x' ++ put_be 2 port') =
      sym (drop-append_eq 32 y (x ++ put_be 2 port) ly)
      ∙ ap (drop 32) tail
      ∙ drop-append_eq 32 y' (x' ++ put_be 2 port') ly' in
    let same_x : x ≡ x' =
      sym (take-append_eq 32 x (put_be 2 port) lx)
      ∙ ap (take 32) rest
      ∙ take-append_eq 32 x' (put_be 2 port') lx' in
    let ports : put_be 2 port ≡ put_be 2 port' =
      sym (drop-append_eq 32 x (put_be 2 port) lx)
      ∙ ap (drop 32) rest
      ∙ drop-append_eq 32 x' (put_be 2 port') lx' in
    (same_x, same_y, sym (get_be-put_be 2 port hp) ∙ ap get_be ports ∙ get_be-put_be 2 port' hp')

verify_proof-equal :
    (proof rest : List ℕ) (c : Conn)
    → length proof ≡ 32
    → c.incoming ≡ proof ++ rest
    → verify_proof proof c ≡ done tt (left rest c)
unfolding verify_proof
verify_proof-equal proof rest c len e =
    ground (arith, read_full-enough 32 proof rest c e len, same_bytes_refl proof)

verify_proof-done :
    (proof : List ℕ) (c : Conn) {c' : Conn}
    → verify_proof proof c ≡ done tt c'
    → c.incoming ≡ proof ++ c'.incoming
unfolding verify_proof
verify_proof-done proof c {c'} e = elim (read_full_cases 32 c) [
  | inl (bs, rest, len, split, q) ↦
      let same : bs ≡ proof = same_bytes→eq bs proof (ground arith) in ground (arith, same)
  | inr q ↦ absurd (ground arith)
]

verify_proof_cases :
    (proof : List ℕ) (c : Conn)
    → ((c' : Conn) × (verify_proof proof c ≡ done tt c'))
      ⊎ ((e : Error) × (c' : Conn) × (verify_proof proof c ≡ failed e c'))
verify_proof_cases proof c = elim (Outcome-cases (verify_proof proof c)) [
  | inl (u, c', e) ↦ inl (c', e)
  | inr q ↦ inr q
]

module _ (p : Primitives) (laws : Lawful p) where
  length-tunnel_mac :
      (secret purpose script : List ℕ) → length (tunnel_mac p secret purpose script) ≡ 32
  unfolding tunnel_mac
  length-tunnel_mac secret purpose script = laws.length-hmac _ script

  module _ (x y : List ℕ) (port : ℕ) (creds : Credentials p) (lx : length x ≡ challenge_size)
      (ly : length y ≡ challenge_size) where
    abbrev script : List ℕ
    script = transcript x y port

    abbrev pub from_publisher : List ℕ
    from_publisher = x ++ publisher_proof p creds.secret script

    abbrev pub from_subscriber : List ℕ
    from_subscriber = y ++ subscriber_proof p creds.secret script

    abbrev stream_secret : List ℕ
    stream_secret = take 16 (tunnel_mac p creds.secret (codes "stream secret") script)

    publisher_run :
        (rest : List ℕ) (c : Conn)
        → 64 ≤ c.room
        → c.incoming ≡ from_subscriber ++ rest
        → authenticate p (some x) creds role_publish port c
          ≡ done stream_secret (left rest (sent (publisher_proof p creds.secret script) (sent x c)))
    unfolding authenticate exchange_challenges exchange_proofs
    publisher_run rest c room e =
        let split : c.incoming ≡ y ++ (subscriber_proof p creds.secret script ++ rest) =
          e ∙ append_assoc y (subscriber_proof p creds.secret script) rest in
        let c1 : Conn = left (subscriber_proof p creds.secret script ++ rest) c in
        let mac = length-tunnel_mac creds.secret (codes "publisher proof") script in
        ground (
          arith,
          mac,
          read_full-enough 32 y (subscriber_proof p creds.secret script ++ rest) c split ly,
          write_full-fits x c1 (omega arith),
          write_full-fits (publisher_proof p creds.secret script) (sent x c1) (omega arith),
          verify_proof-equal (subscriber_proof p creds.secret script) rest
              (sent (publisher_proof p creds.secret script) (sent x c1))
              (length-tunnel_mac creds.secret (codes "subscriber proof") script) refl,
        )

    subscriber_run :
        (rest : List ℕ) (c : Conn)
        → 64 ≤ c.room
        → c.incoming ≡ from_publisher ++ rest
        → authenticate p (some y) creds role_subscribe port c
          ≡ done stream_secret
              (sent (subscriber_proof p creds.secret script) (left rest (sent y c)))
    unfolding authenticate exchange_challenges exchange_proofs
    subscriber_run rest c room e =
        let split : c.incoming ≡ x ++ (publisher_proof p creds.secret script ++ rest) =
          e ∙ append_assoc x (publisher_proof p creds.secret script) rest in
        let c1 : Conn = left (publisher_proof p creds.secret script ++ rest) (sent y c) in
        let mac = length-tunnel_mac creds.secret (codes "subscriber proof") script in
        ground (
          arith,
          mac,
          write_full-fits y c (omega arith),
          read_full-enough 32 x (publisher_proof p creds.secret script ++ rest) (sent y c) split lx,
          verify_proof-equal (publisher_proof p creds.secret script) rest c1
              (length-tunnel_mac creds.secret (codes "publisher proof") script) refl,
          write_full-fits (subscriber_proof p creds.secret script) (left rest c1) (omega arith),
        )

    -- Two ends with the same data secret and port and room to write, each reading what the other
    -- writes, both succeed, with the same stream secret.
    pub authenticate-agree :
        (a b : Conn)
        → 64 ≤ a.room
        → 64 ≤ b.room
        → a.outgoing ≡ []
        → b.outgoing ≡ []
        → a.incoming ≡ from_subscriber
        → b.incoming ≡ from_publisher
        → (secret : List ℕ) × (a' : Conn) × (b' : Conn) × (authenticate p
              (some x)
              creds
              role_publish
              port
              a
            ≡ done secret a')
          × (authenticate p (some y) creds role_subscribe port b ≡ done secret b')
          × (a'.outgoing ≡ b.incoming)
          × (b'.outgoing ≡ a.incoming)
    authenticate-agree a b ra rb ca cb ia ib = (
      stream_secret,
      _,
      _,
      publisher_run [] a ra (ia ∙ sym (append-nil _)),
      subscriber_run [] b rb (ib ∙ sym (append-nil _)),
      rw (ca, ib) refl,
      rw (cb, ia) refl,
    )

module _ (p : Primitives) where
  publisher_reads :
      (x : List ℕ) (creds : Credentials p) (port : ℕ) (c : Conn) {s : List ℕ} {c' : Conn}
      → authenticate p (some x) creds role_publish port c ≡ done s c'
      → (y : List ℕ) × (length y ≡ 32)
        × (c.incoming ≡ y ++ (subscriber_proof p creds.secret (transcript x y port) ++ c'.incoming))
        × (s ≡ take 16 (tunnel_mac p creds.secret (codes "stream secret") (transcript x y port)))
  unfolding authenticate exchange_challenges exchange_proofs
  publisher_reads x creds port c {s} {c'} e = elim (read_full_cases 32 c) [
    | inr q ↦ absurd (ground arith)
    | inl (y, rest, len, split, q) ↦
        let c1 : Conn = left rest c in
        let mac : List ℕ = publisher_proof p creds.secret (transcript x y port) in
        elim (write_full_cases x c1) [
          | inr (_, w) ↦ absurd (ground arith)
          | inl (_, w) ↦ elim (write_full_cases mac (sent x c1)) [
            | inr (_, w') ↦ absurd (ground arith)
            | inl (_, w') ↦
                elim (verify_proof_cases (subscriber_proof p creds.secret (transcript x y port))
                  (sent mac (sent x c1))) [
                    | inr (f, d, v) ↦ absurd (ground arith)
                    | inl (d, v) ↦
                        let got =
                          verify_proof-done (subscriber_proof p creds.secret (transcript x y port))
                            (sent mac (sent x c1)) v in
                        (y, len, ground arith, ground arith)
                  ]
          ]
        ]
  ]
