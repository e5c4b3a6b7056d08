-- ===== src/Proto/Io.antt =====
-- A connection as internal/proto uses it (io.ReadFull, and writeFull of internal/proto/auth.go):
-- the bytes that the other end will have sent, and what the transport has taken of ours.
use ggrok.Prelude.{
  ℕ, suc, ◌-◌, ◌≤◌, ◌<◌, ◌≡◌, Bool, true, false, not, ◌&&◌, List, [], ◌∷◌, ◌++◌, Option, none, some,
  arith, ltb, leb, ◌==◌, if◌then◌else◌, length, take, drop, length-append, take-append, drop-append,
  take-append-drop, length-take, take_all, min, ◌⊎◌, inl, inr, sym, refl,
}
use native.Mathlib.Decide.{dec_le}
use ggrok.Proto.Error.{Error, eof, unexpected_eof, short_write, read_failed, write_failed}

pub record Conn : Type 0 where
  -- What is still to be read, and whether a fault (a reset, a deadline) follows it instead of EOF.
  pub incoming : List ℕ
  pub broken : Bool
  -- What was written, how much more the transport takes, and whether it drops the rest silently.
  pub outgoing : List ℕ
  pub room : ℕ
  pub silent : Bool

pub data Outcome {ℓ} (A : Type ℓ) : Type ℓ where
  done : A → Conn → Outcome A
  failed : Error → Conn → Outcome A

pub Outcome-cases {ℓ} :
    {A : Type ℓ} (o : Outcome A)
    → ((a : A) × (c : Conn) × (o ≡ done a c)) ⊎ ((e : Error) × (c : Conn) × (o ≡ failed e c))
Outcome-cases (done a c) = inl (a, c, refl)
Outcome-cases (failed e c) = inr (e, c, refl)

-- A Go function of a connection that returns an error.
abbrev pub Io {ℓ} : Type ℓ → Type ℓ
Io A = Conn → Outcome A

infixl 5 ◌>>=◌ ◌>>◌
abbrev pub ◌>>=◌ {ℓ κ} : {A : Type ℓ} {B : Type κ} → Io A → (A → Io B) → Io B
◌>>=◌ m f c = elim (m c) [ done a c' ↦ f a c' | failed e c' ↦ failed e c' ]

abbrev pub ◌>>◌ {ℓ} : {B : Type ℓ} → Io (Unit {0}) → Io B → Io B
m >> k = m >>= λ _. k

abbrev pub return {ℓ} : {A : Type ℓ} → A → Io A
return a c = done a c

abbrev pub fail {ℓ} : {A : Type ℓ} → Error → Io A
fail e c = failed e c

-- `if !ok { return err }`
abbrev pub check : Bool → Error → Io (Unit {0})
check true e c = done tt c
check false e c = failed e c

-- How a read of too few bytes ends: a reader that gave nothing ends in io.EOF.
pub read_error : Bool → List ℕ → Error
read_error true bs = read_failed
read_error false [] = eof
read_error false (b ∷ bs) = unexpected_eof

unfoldable pub read_full : ℕ → Io (List ℕ)
unfolding read_error
read_full n c =
    if leb n (length c.incoming)
    then done (take n c.incoming) (record c { incoming = drop n c.incoming })
    else failed (read_error c.broken c.incoming) (record c { incoming = [] })

-- One `Write`: how many bytes were taken, and the error.
unfoldable pub write : List ℕ → Conn → ℕ × Option Error × Conn
write p c =
    let n = min c.room (length p) in
    (
      n,
      (if ltb n (length p) && not c.silent then some write_failed else none),
      record c { outgoing = c.outgoing ++ take n p; room = c.room - n },
    )

-- `if err == nil && n != len(p) { return io.ErrShortWrite }; return err`
unfoldable pub write_full : List ℕ → Io (Unit {0})
unfolding write
write_full p c =
    let (n, e, c') = write p c in
    elim e [
      | none ↦ if n == length p then done tt c' else failed short_write c'
      | some x ↦ failed x c'
    ]

-- A read of bytes that are there returns them and leaves the rest.
pub read_full-enough :
    (n : ℕ) (xs rest : List ℕ) (c : Conn)
    → c.incoming ≡ xs ++ rest
    → length xs ≡ n
    → read_full n c ≡ done xs (record c { incoming = rest })
unfolding read_full
read_full-enough n xs rest c e h =
    rw (← h, e) (ground (arith, length-append xs rest, take-append xs rest, drop-append xs rest))

read_full-short :
    (n : ℕ) (c : Conn)
    → length c.incoming < n
    → read_full n c ≡ failed (read_error c.broken c.incoming) (record c { incoming = [] })
unfolding read_full
read_full-short n c h = ground arith

pub read_full-empty :
    (n : ℕ) (c : Conn)
    → c.incoming ≡ []
    → c.broken ≡ false
    → read_full (suc n) c ≡ failed eof (record c { incoming = [] })
unfolding read_full read_error
read_full-empty n c e b = ground arith

-- To split on a read: it either takes exactly `n` bytes, or fails.
pub read_full_cases :
    (n : ℕ) (c : Conn)
    → ((bs rest : List ℕ) × (length bs ≡ n)
        × (c.incoming ≡ bs ++ rest)
        × (read_full n c ≡ done bs (record c { incoming = rest })))
      ⊎ (read_full n c ≡ failed (read_error c.broken c.incoming) (record c { incoming = [] }))
unfolding read_full
read_full_cases n c = elim (dec_le n (length c.incoming)) [
  | yes h ↦ inl (
    take n c.incoming,
    drop n c.incoming,
    length-take n c.incoming h,
    sym (take-append-drop n c.incoming),
    ground arith,
  )
  | no h ↦ inr (ground arith)
]

-- A read that succeeds took exactly `n` bytes, and changed nothing else.
pub read_full-done :
    (n : ℕ) (c : Conn) {bs : List ℕ} {c' : Conn}
    → read_full n c ≡ done bs c'
    → (length bs ≡ n)
      × (c.incoming ≡ bs ++ c'.incoming)
      × (c' ≡ record c { incoming = c'.incoming })
unfolding read_full
read_full-done n c {bs} {c'} h =
    ground (arith, take-append-drop n c.incoming, length-take n c.incoming)

pub write_full-fits :
    (p : List ℕ) (c : Conn)
    → length p ≤ c.room
    → write_full p c ≡ done tt (record c { outgoing = c.outgoing ++ p; room = c.room - length p })
unfolding write_full
write_full-fits p c h =
    let all : min c.room (length p) ≡ length p = omega arith in ground (arith, all, take_all p)

write_full-short :
    (p : List ℕ) (c : Conn)
    → c.room < length p
    → write_full p c
      ≡ failed
          (if c.silent then short_write else write_failed)
          (record c { outgoing = c.outgoing ++ take c.room p; room = 0 })
unfolding write_full
write_full-short p c h =
    let some_of : min c.room (length p) ≡ c.room = omega arith in ground (arith, some_of)

-- What a write leaves, and a read.
abbrev pub sent : List ℕ → Conn → Conn
sent p c = record c { outgoing = c.outgoing ++ p; room = c.room - length p }

abbrev pub left : List ℕ → Conn → Conn
left rest c = record c { incoming = rest }

-- To split on a write: it either sends all of its bytes, or fails.
pub write_full_cases :
    (p : List ℕ) (c : Conn)
    → ((length p ≤ c.room) × (write_full p c ≡ done tt (sent p c)))
      ⊎ ((c.room < length p)
          × (write_full p c
              ≡ failed
                  (if c.silent then short_write else write_failed)
                  (record c { outgoing = c.outgoing ++ take c.room p; room = 0 })))
write_full_cases p c = elim (dec_le (length p) c.room) [
  | yes h ↦ inl (h, write_full-fits p c h)
  | no h ↦ inr (omega arith, write_full-short p c (omega arith))
]
