-- ===== src/Prelude/Bytes.antt =====
-- Byte strings, and `encoding/binary`'s big-endian numbers of a fixed number of bytes.
use Prim.Native.Nat.{ℕ, zero, suc, ◌+◌, ◌*◌, ◌/◌, ◌%◌, ◌^◌, ◌<◌}
use mathlib.Core.Path.{◌≡◌, refl, sym, ◌∙◌}
use mathlib.Core.List.{List, [], ◌∷◌, ◌++◌}
use native.Mathlib.Omega.{arith}
use Prim.Native.Char.{code}
use Prim.Native.String.{String}
use native.Mathlib.Nat.{pow-suc}
use ggrok.Prelude.Lists.{length, length-append, All, All-append}
use mathlib.Core.List.{append-nil, append_assoc}

abbrev pub IsByte : ℕ → Type 0
IsByte b = b < 256

-- An array of `n` bytes.
abbrev pub IsBlock : ℕ → List ℕ → Type 0
IsBlock n bs = (length bs ≡ n) × All IsByte bs

-- The bytes of an ASCII text.
abbrev pub codes : String → List ℕ
codes String.[] = []
codes (String.◌∷◌ c s) = code c ∷ codes s

-- `PutUint16`, `PutUint32` and `PutUint64` are `put_be 2`, `put_be 4` and `put_be 8`.
unfoldable pub put_be : ℕ → ℕ → List ℕ
put_be zero v = []
put_be (suc w) v = put_be w (v / 256) ++ v % 256 ∷ []

get_be_from : ℕ → List ℕ → ℕ
get_be_from acc [] = acc
get_be_from acc (b ∷ bs) = get_be_from (acc * 256 + b) bs

-- `Uint16`, `Uint32` and `Uint64` of a slice of that many bytes.
unfoldable pub get_be : List ℕ → ℕ
unfolding get_be_from
get_be bs = get_be_from 0 bs

get_be_from-append :
    (acc : ℕ) (xs : List ℕ) (b : ℕ) → get_be_from acc (xs ++ b ∷ []) ≡ get_be_from acc xs * 256 + b
unfolding get_be_from
get_be_from-append acc [] b = refl
get_be_from-append acc (x ∷ xs) b = get_be_from-append (acc * 256 + x) xs b

pub length-put_be : (w v : ℕ) → length (put_be w v) ≡ w
unfolding put_be
length-put_be zero v = refl
length-put_be (suc w) v =
    omega (arith, length-append (put_be w (v / 256)) (v % 256 ∷ []), length-put_be w (v / 256))

put_be-IsByte : (w v : ℕ) → All IsByte (put_be w v)
unfolding put_be
put_be-IsByte zero v = tt
put_be-IsByte (suc w) v =
    All-append IsByte (put_be w (v / 256)) _ (put_be-IsByte w (v / 256)) (omega arith)

pub get_be-put_be : (w v : ℕ) → v < 256 ^ w → get_be (put_be w v) ≡ v
unfolding get_be put_be
get_be-put_be zero v h = omega arith
get_be-put_be (suc w) v h =
    get_be_from-append 0 (put_be w (v / 256)) (v % 256)
    ∙ omega (arith, get_be-put_be w (v / 256) (omega (arith, pow-suc 256 w)))

put_be-get_be_from :
    (bs : List ℕ) (k w acc : ℕ)
    → All IsByte bs
    → w ≡ k + length bs
    → put_be w (get_be_from acc bs) ≡ put_be k acc ++ bs
unfolding get_be_from
put_be-get_be_from [] k w acc h e =
    let same : w ≡ k = omega arith in rw same (sym (append-nil (put_be k acc)))
put_be-get_be_from (b ∷ bs) k w acc h e =
    let high : (acc * 256 + b) / 256 ≡ acc = omega arith in
    let low : (acc * 256 + b) % 256 ≡ b = omega arith in
    put_be-get_be_from bs (suc k) w (acc * 256 + b) h.1 (omega arith)
    ∙ unfold put_be in rw (high, low) (append_assoc (put_be k acc) (b ∷ []) bs)

pub put_be-get_be : (w : ℕ) (bs : List ℕ) → IsBlock w bs → put_be w (get_be bs) ≡ bs
unfolding get_be put_be
put_be-get_be w bs h = put_be-get_be_from bs 0 w 0 h.1 (omega arith)

get_be_from-lt :
    (bs : List ℕ) (k w acc : ℕ)
    → All IsByte bs
    → w ≡ k + length bs
    → acc < 256 ^ k
    → get_be_from acc bs < 256 ^ w
unfolding get_be_from
get_be_from-lt [] k w acc h e lt = let same : w ≡ k = omega arith in rw same lt
get_be_from-lt (b ∷ bs) k w acc h e lt =
    get_be_from-lt bs (suc k) w (acc * 256 + b) h.1 (omega arith) (omega (arith, pow-suc 256 k))

pub get_be-lt : (w : ℕ) (bs : List ℕ) → IsBlock w bs → get_be bs < 256 ^ w
unfolding get_be
get_be-lt w bs h = get_be_from-lt bs 0 w 0 h.1 (omega arith) (omega arith)
