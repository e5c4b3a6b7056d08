-- ===== src/Relay/Session/Invariant.antt =====
-- internal/relay/session.go: the invariant of a session, for every critical section.
use ggrok.Prelude.{
  ℕ, suc, ◌+◌, ◌-◌, ◌^◌, ◌≤◌, ◌<◌, ◌≡◌, refl, ◌∙◌, [], some, Option-cases, arith, true, false,
  Bool-cases, ◌||◌, leb, length, inl, inr,
}
use ggrok.Prelude.Maps.{
  lookup, erase, insert, Distinct, Below, insert-Distinct, erase-Distinct, Below-mono, insert-Below,
  erase-Below, lookup-above, length-erase-le, length-insert-le,
}
use ggrok.Relay.Session.{
  Session, Peer, Subscriber, Pending, max_session_peers, next_u64, new_session, count_at,
  add_subscriber, remove_subscriber, add_pending, claim_pending, begin_shutdown,
}
use ggrok.Relay.Session.Certs.{
  holders, holders-insert, holders-pos, holders-erase, count_at-insert, count_at-release_cert,
}

-- `n` bounds both counters.
pub record IsValid (n : ℕ) (s : Session) : Type 0 where
  pub subs_distinct : Distinct s.subscribers
  pub subs_below : Below s.next_sub_id s.subscribers
  pub sub_counter : s.next_sub_id ≤ n
  pub reqs_distinct : Distinct s.pending
  pub reqs_below : Below s.next_req_id s.pending
  pub req_counter : s.next_req_id ≤ n
  pub subs_bound : length s.subscribers ≤ max_session_peers
  pub reqs_bound : length s.pending ≤ max_session_peers
  pub closed_empty : s.closed ≡ true → s.pending ≡ []
  pub counts : (key : ℕ) → count_at key s.subscriber_certs ≡ holders key s.subscribers

pub new_session-IsValid :
    (n mode ports publisher cert now : ℕ) → IsValid n (new_session mode ports publisher cert now)
unfolding new_session holders lookup
new_session-IsValid n mode ports publisher cert now = record {
  subs_distinct = tt;
  subs_below = tt;
  sub_counter = omega arith;
  reqs_distinct = tt;
  reqs_below = tt;
  req_counter = omega arith;
  subs_bound = omega arith;
  reqs_bound = omega arith;
  closed_empty = λ e. refl;
  counts = λ key. refl;
}

pub IsValid-suc : {n : ℕ} {s : Session} → IsValid n s → IsValid (suc n) s
IsValid-suc {n} {s} v = record {
  subs_distinct = v.subs_distinct;
  subs_below = v.subs_below;
  sub_counter = omega arith;
  reqs_distinct = v.reqs_distinct;
  reqs_below = v.reqs_below;
  req_counter = omega arith;
  subs_bound = v.subs_bound;
  reqs_bound = v.reqs_bound;
  closed_empty = v.closed_empty;
  counts = v.counts;
}

next_u64-small : (n : ℕ) → n < 2 ^ 64 - 1 → next_u64 n ≡ suc n
next_u64-small n h = omega arith

module _ {n : ℕ} {s : Session} (small : n < 2 ^ 64 - 1) (v : IsValid n s) where
  pub add_subscriber-IsValid :
      (peer : Peer) (now : ℕ) {id : ℕ} {s' : Session}
      → add_subscriber peer now s ≡ some (id, s')
      → IsValid (suc n) s'
  unfolding add_subscriber
  add_subscriber-IsValid peer now {id} {s'} e = elim (Option-cases peer.cert) [
    | inl nobody ↦ absurd (ground arith)
    | inr (key, is) ↦ elim (Bool-cases (s.closed || leb max_session_peers (length s.subscribers))) [
      | inl full ↦ absurd (ground arith)
      | inr free ↦
          let sub : Subscriber = record { control = peer.conn; cert_key = key; since = now } in
          let now_s : s' ≡ record s {
            next_sub_id = next_u64 s.next_sub_id;
            subscribers = insert s.next_sub_id sub s.subscribers;
            subscriber_certs = insert key (count_at key s.subscriber_certs + 1) s.subscriber_certs;
          } =
            ground arith in
          let fresh =
            lookup-above s.next_sub_id s.next_sub_id s.subscribers (omega arith) v.subs_below in
          let next : next_u64 s.next_sub_id ≡ suc s.next_sub_id =
            next_u64-small s.next_sub_id (omega arith) in
          rw (now_s, next)
            (record {
              subs_distinct = insert-Distinct s.next_sub_id sub s.subscribers v.subs_distinct;
              subs_below =
                  insert-Below s.next_sub_id (suc s.next_sub_id) sub s.subscribers (omega arith) (
                    Below-mono s.next_sub_id (suc s.next_sub_id) s.subscribers (omega arith)
                      v.subs_below);
              sub_counter = omega arith;
              reqs_distinct = v.reqs_distinct;
              reqs_below = v.reqs_below;
              req_counter = omega arith;
              subs_bound = ground (arith, length-insert-le s.next_sub_id sub s.subscribers);
              reqs_bound = v.reqs_bound;
              closed_empty = v.closed_empty;
              counts = λ k.
                  count_at-insert key k (count_at key s.subscriber_certs + 1) s.subscriber_certs
                  ∙ ground (
                    arith,
                    holders-insert k s.next_sub_id sub s.subscribers fresh,
                    v.counts k,
                    v.counts key,
                  );
            })
    ]
  ]

  pub remove_subscriber-IsValid : (id : ℕ) → IsValid n (remove_subscriber id s)
  unfolding remove_subscriber
  remove_subscriber-IsValid id = elim (Option-cases (lookup id s.subscribers)) [
    | inl gone ↦ rw (remove_subscriber, gone) v
    | inr (sub, e) ↦
        rw (remove_subscriber, e)
          (record {
            subs_distinct = erase-Distinct id s.subscribers v.subs_distinct;
            subs_below = erase-Below id s.next_sub_id s.subscribers v.subs_below;
            sub_counter = v.sub_counter;
            reqs_distinct = v.reqs_distinct;
            reqs_below = v.reqs_below;
            req_counter = v.req_counter;
            subs_bound = omega (arith, length-erase-le id s.subscribers);
            reqs_bound = v.reqs_bound;
            closed_empty = v.closed_empty;
            counts = λ k.
                count_at-release_cert sub.cert_key k s.subscriber_certs
                ∙ ground (
                  arith,
                  holders-erase k id s.subscribers {sub = sub} v.subs_distinct,
                  v.counts k,
                  v.counts sub.cert_key,
                );
          })
  ]

  -- In a valid session, a request is only accepted from a connection whose certificate a
  -- subscriber of the session holds.
  pub add_pending-holder :
      (peer : Peer) (port now : ℕ) {id : ℕ} {s' : Session}
      → add_pending peer port now s ≡ some (id, s')
      → (key sub_id : ℕ) × (sub : Subscriber) × (peer.cert ≡ some key)
        × (lookup sub_id s.subscribers ≡ some sub)
        × (sub.cert_key ≡ key)
  unfolding add_pending
  add_pending-holder peer port now {id} {s'} e = elim (Option-cases peer.cert) [
    | inl nobody ↦ absurd (ground arith)
    | inr (key, is) ↦
        let some_holder : 0 < holders key s.subscribers = ground (arith, v.counts key) in
        let (sub_id, sub, q, same) = holders-pos key s.subscribers v.subs_distinct some_holder in
        (key, sub_id, sub, is, q, same)
  ]

  pub add_pending-IsValid :
      (peer : Peer) (port now : ℕ) {id : ℕ} {s' : Session}
      → add_pending peer port now s ≡ some (id, s')
      → IsValid (suc n) s'
  unfolding add_pending
  add_pending-IsValid peer port now {id} {s'} e =
      let req : Pending = record { conn = peer.conn; port = port; since = now } in
      let now_s : s' ≡ record s {
        next_req_id = next_u64 s.next_req_id;
        pending = insert s.next_req_id req s.pending;
      } =
        ground arith in
      let next : next_u64 s.next_req_id ≡ suc s.next_req_id =
        next_u64-small s.next_req_id (omega arith) in
      let alive : s.closed ≡ false = ground arith in
      let few : length s.pending < max_session_peers = ground arith in
      rw (now_s, next)
        (record {
          subs_distinct = v.subs_distinct;
          subs_below = v.subs_below;
          sub_counter = omega arith;
          reqs_distinct = insert-Distinct s.next_req_id req s.pending v.reqs_distinct;
          reqs_below =
              insert-Below s.next_req_id (suc s.next_req_id) req s.pending (omega arith)
                (Below-mono s.next_req_id (suc s.next_req_id) s.pending (omega arith) v.reqs_below);
          req_counter = omega arith;
          subs_bound = v.subs_bound;
          reqs_bound = omega (arith, length-insert-le s.next_req_id req s.pending);
          closed_empty = λ c. absurd (cc);
          counts = v.counts;
        })

  pub claim_pending-IsValid : (id : ℕ) → IsValid n (claim_pending id s).1
  unfolding claim_pending
  claim_pending-IsValid id = elim (Option-cases (lookup id s.pending)) [
    | inl gone ↦ rw (claim_pending, gone) v
    | inr (req, e) ↦
        rw (claim_pending, e)
          (record {
            subs_distinct = v.subs_distinct;
            subs_below = v.subs_below;
            sub_counter = v.sub_counter;
            reqs_distinct = erase-Distinct id s.pending v.reqs_distinct;
            reqs_below = erase-Below id s.next_req_id s.pending v.reqs_below;
            req_counter = v.req_counter;
            subs_bound = v.subs_bound;
            reqs_bound = omega (arith, length-erase-le id s.pending);
            closed_empty = λ c. unfold erase in rw (v.closed_empty c) refl;
            counts = v.counts;
          })
  ]

  pub begin_shutdown-IsValid : IsValid n (begin_shutdown s).2
  unfolding begin_shutdown
  begin_shutdown-IsValid = elim (Bool-cases s.closed) [
    | inl over ↦ let same : (begin_shutdown s).2 ≡ s = ground arith in rw same v
    | inr alive ↦
        let ended : (begin_shutdown s).2 ≡ record s { closed = true; pending = [] } =
          ground arith in
        rw ended (record {
          subs_distinct = v.subs_distinct;
          subs_below = v.subs_below;
          sub_counter = v.sub_counter;
          reqs_distinct = tt;
          reqs_below = tt;
          req_counter = v.req_counter;
          subs_bound = v.subs_bound;
          reqs_bound = omega arith;
          closed_empty = λ c. refl;
          counts = v.counts;
        })
  ]
