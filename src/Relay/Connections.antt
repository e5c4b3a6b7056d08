-- ===== src/Relay/Connections.antt =====
-- internal/relay/connections.go: every socket that relay holds, with the serial of its certificate
-- once TLS has verified it. A raw transport and a serial are numbers, and `none` is the empty serial
-- of a socket that is not authenticated. A `*trackedConn` of this set is named by the transport it
-- wraps. Every function is one critical section of the set's lock, with the closing around it.
pub mod Eviction
pub mod Policy
use ggrok.Prelude.{
  ℕ, suc, ◌+◌, ◌≡◌, Bool, true, false, not, ◌||◌, List, [], ◌∷◌, ◌++◌, map, Option, none, some,
  length, leb, ◌==◌, if◌then◌else◌,
}
use ggrok.Prelude.Maps.{lookup, erase, insert}

abbrev pub max_connections : ℕ
max_connections = 1024

abbrev pub ConnectionSet : Type 0
ConnectionSet = List (ℕ × Option ℕ)

unfoldable pub track : ℕ → ConnectionSet → Bool × ConnectionSet
track conn s = if leb max_connections (length s) then (false, s) else (true, insert conn none s)

-- `conn` is none when the connection is not a `*trackedConn` of this set; `revoked` is the
-- RevocationSet's Contains.
unfoldable pub authenticate :
    Option ℕ → Option ℕ → (ℕ → Bool) → ConnectionSet → Bool × ConnectionSet
authenticate none serial revoked s = (false, s)
authenticate (some conn) none revoked s = (false, s)
authenticate (some conn) (some serial) revoked s = elim (lookup conn s) [
  | none ↦ (false, s)
  | some old ↦ if revoked serial then (false, s) else (true, insert conn (some serial) s)
]

-- `serial == "" || !matches(serial)`, negated.
unfoldable pub evictable : (ℕ → Bool) → Option ℕ → Bool
evictable matches none = false
evictable matches (some serial) = matches serial

-- `conn == replyConn`, with `none` for a nil replyConn.
unfoldable pub is_reply : Option ℕ → ℕ → Bool
is_reply none conn = false
is_reply (some reply) conn = reply == conn

-- What the loop over the map leaves: the sockets to close, the deferred one, and the set.
pub record Evicted : Type 0 where
  pub conns : List ℕ
  pub deferred : Option ℕ
  pub rest : ConnectionSet

unfoldable pub evict : (ℕ → Bool) → Option ℕ → ConnectionSet → Evicted
evict matches reply [] = record { conns = []; deferred = none; rest = [] }
evict matches reply ((conn, serial) ∷ s) =
    let e = evict matches reply s in
    if not (evictable matches serial)
    then record e { rest = (conn, serial) ∷ e.rest }
    else if is_reply reply conn
    then record e { deferred = some conn; rest = (conn, serial) ∷ e.rest }
    else record e { conns = conn ∷ e.conns }

-- The number of sockets closed, what the finish func holds, the sockets closed now, and the set.
unfoldable pub close_matching_after_reply :
    (ℕ → Bool) → Option ℕ → ConnectionSet → ℕ × Option ℕ × List ℕ × ConnectionSet
close_matching_after_reply matches reply s =
    let e = evict matches reply s in
    let closed = length e.conns in
    (elim e.deferred [ none ↦ closed | some conn ↦ closed + 1 ], e.deferred, e.conns, e.rest)

-- The func that it returns.
unfoldable pub finish : Option ℕ → ConnectionSet → List ℕ × ConnectionSet
finish none s = ([], s)
finish (some conn) s = (conn ∷ [], erase conn s)

unfoldable pub close_matching : (ℕ → Bool) → ConnectionSet → ℕ × List ℕ × ConnectionSet
close_matching matches s =
    let (closed, deferred, conns, s') = close_matching_after_reply matches none s in
    let (last, s'') = finish deferred s' in (closed, conns ++ last, s'')

unfoldable pub close_all : ConnectionSet → List ℕ × ConnectionSet
close_all s = (map (λ (e : ℕ × Option ℕ). e.0) s, [])

-- `trackedConn.Close`.
unfoldable pub close : ℕ → ConnectionSet → ConnectionSet
close conn s = erase conn s
