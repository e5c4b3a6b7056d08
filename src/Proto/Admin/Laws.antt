-- ===== src/Proto/Admin/Laws.antt =====
-- internal/proto/admin.go: lemmas on writing and reading admin frames.
use ggrok.Prelude.{
  ℕ, ◌≤◌, ◌≡◌, ◌≢◌, inl, inr, List, [], ◌∷◌, ◌++◌, ap, ◌∙◌, refl, arith, length, ok, Option, some,
  Option-cases,
}
use mathlib.Core.List.{append_assoc}
use ggrok.Prelude.Bytes.{put_be, get_be, length-put_be, get_be-put_be}
use ggrok.Proto.ConnKind.{conn_admin, valid_conn_kind, read_conn_kind, read_conn_kind-byte}
use ggrok.Proto.Control.{encode_frame}
use ggrok.Proto.Io.{Conn, done, read_full-enough, write_full_cases, left}
use ggrok.Proto.Admin.{
  admin_header_size, max_admin_payload, admin_hello, admin_body, write_admin_body,
  write_admin_frame_with, write_admin_hello, read_admin_frame, decode_admin_payload,
}

read_admin_frame-encode_frame :
    (typ : ℕ) (body rest : List ℕ) (c : Conn)
    → length body ≤ max_admin_payload
    → c.incoming ≡ encode_frame typ body ++ rest
    → read_admin_frame c ≡ done (typ, body) (left rest c)
unfolding read_admin_frame encode_frame
read_admin_frame-encode_frame typ body rest c h e =
    let len = length-put_be 4 (length body) in
    let size : get_be (put_be 4 (length body)) ≡ length body =
      get_be-put_be 4 (length body) (omega arith) in
    let split : c.incoming ≡ (typ ∷ put_be 4 (length body)) ++ (body ++ rest) =
      e ∙ ap (λ (t : List ℕ). typ ∷ t) (append_assoc (put_be 4 (length body)) body rest) in
    ground (
      arith,
      size,
      read_full-enough admin_header_size (typ ∷ put_be 4 (length body)) (body ++ rest) c split
          (omega (arith, len)),
      read_full-enough (length body) body rest (left (body ++ rest) c) refl refl,
    )

-- If the decoder gives back what the encoder took, and the encoder never gives an empty text, then
-- what WriteAdminHello writes is read back as an admin connection, an admin hello and the same
-- payload, and what follows is left.
pub write_admin_hello-read {ℓ} :
    {P : Type ℓ} (marshal : P → Option (List ℕ)) (unmarshal : List ℕ → Option P) (p v : P)
    (rest : List ℕ) (w r : Conn) {w' : Conn}
    → ((q : P) (b : List ℕ) → marshal q ≡ some b → (unmarshal b ≡ some q) × (b ≢ []))
    → w.outgoing ≡ []
    → write_admin_hello marshal p w ≡ done tt w'
    → r.incoming ≡ w'.outgoing ++ rest
    → (body more : List ℕ) × (read_conn_kind r ≡ done conn_admin (left more r))
      × (read_admin_frame (left more r) ≡ done (admin_hello, body) (left rest r))
      × (decode_admin_payload unmarshal body v ≡ ok p)
unfolding write_admin_hello write_admin_frame_with admin_body write_admin_body valid_conn_kind
    decode_admin_payload
write_admin_hello-read marshal unmarshal p v rest w r {w'} codec clean e got =
    elim (Option-cases (marshal p)) [
      | inl no_body ↦ absurd (ground arith)
      | inr (body, m) ↦ elim (write_full_cases (conn_admin ∷ encode_frame admin_hello body) w) [
        | inl (_, q) ↦
            let bytes : r.incoming ≡ conn_admin ∷ (encode_frame admin_hello body ++ rest) =
              ground arith in
            (
              body,
              encode_frame admin_hello body ++ rest,
              read_conn_kind-byte conn_admin _ r bytes,
              read_admin_frame-encode_frame admin_hello body rest _ (ground arith) refl,
              decoded body (codec p body m).0 (codec p body m).1,
            )
        | inr (_, q) ↦ absurd (ground arith)
      ]
    ]
  where
    decoded :
        (body : List ℕ)
        → unmarshal body ≡ some p
        → body ≢ []
        → decode_admin_payload unmarshal body v ≡ ok p
    decoded [] u n = absurd (n refl)
    decoded (b ∷ bs) u n = rw (u, decode_admin_payload)
