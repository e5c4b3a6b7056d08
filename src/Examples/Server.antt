-- ===== src/Examples/Server.antt =====
-- A data connection that relay admits.
use ggrok.Prelude.{
  same_bytes_refl, ℕ, ◌≡◌, ◌≢◌, refl, Bool, true, false, [], ◌∷◌, Option, none, some, ◌==◌, arith,
}
use ggrok.Prelude.Maps.{lookup, erase, insert}
use ggrok.Proto.Io.{done, read_full}
use ggrok.Proto.ConnKind.{read_conn_kind, valid_conn_kind}
use ggrok.Proto.Auth.{alpn}
use ggrok.Relay.Connections.{ConnectionSet, authenticate}
use ggrok.Relay.Server.{to_data, closed, dispatch, handle_conn}
use ggrok.Relay.Server.Admission.{Serves, handle_conn-admitted}
use ggrok.Examples.Toy.{wire}

abbrev revoked : ℕ → Bool
revoked serial = serial == 7

abbrev tracked : ConnectionSet
tracked = (1, none) ∷ []

abbrev tracked' : ConnectionSet
tracked' = (1, some 8) ∷ []

conn_kind_reads : read_conn_kind (wire (2 ∷ 1 ∷ [])) ≡ done 2 (wire (1 ∷ []))
unfolding read_conn_kind valid_conn_kind read_full
conn_kind_reads = refl

admits : authenticate (some 1) (some 8) revoked tracked ≡ (true, tracked')
unfolding authenticate lookup insert erase
admits = refl

relay_dispatches :
    handle_conn false alpn (some 8) (some 1) revoked (wire (2 ∷ 1 ∷ [])) tracked
    ≡ (to_data, wire (1 ∷ []), tracked')
unfolding handle_conn dispatch
relay_dispatches = ground (arith, conn_kind_reads, admits, same_bytes_refl alpn)

to_data-ne-closed : to_data ≢ closed
to_data-ne-closed e = absurd (ground arith)

handle_conn-admitted_example :
    (kind conn x : ℕ) × (old : Option ℕ) × (read_conn_kind (wire (2 ∷ 1 ∷ []))
      ≡ done kind (wire (1 ∷ [])))
    × Serves false kind to_data
    × (alpn ≡ alpn)
    × (some 8 ≡ some x)
    × (revoked x ≡ false)
    × (some 1 ≡ some conn)
    × (lookup conn tracked ≡ some old)
    × (lookup conn tracked' ≡ some (some x))
handle_conn-admitted_example =
    handle_conn-admitted false alpn (some 8) (some 1) revoked (wire (2 ∷ 1 ∷ [])) tracked
      {d = to_data} {c' = wire (1 ∷ [])} {s' = tracked'} relay_dispatches to_data-ne-closed
