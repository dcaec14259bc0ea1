-- ===== src/Sync/Writes.antt =====
-- packages/core/src/v2/sync/outbox.ts: every run of events, on the slots and the items.
use latticeag_gateway.Base.{
  ℕ, String, true, false, ◌≡◌, inl, inr, ◌⊎◌, refl, Option, none, some, List, [], ◌∷◌, ◌++◌, ◌=ₛ◌,
  includes, arith, eq_iff, Bool-cases, Option-cases, ltb,
}
use latticeag_gateway.Base.Table.{Table, Keyed, get, put, get-put}
use latticeag_gateway.Base.Table.Later.{put_table}
use latticeag_gateway.Protocol.Errors.{RpcError, object_conflict}
use latticeag_gateway.Exec.{Result, ok, err, Exec, ◌>>◌, modify}
use latticeag_gateway.Approvals.{NativeRef}
use latticeag_gateway.Sync.{
  Stream, OutboxItem, Consent, Payload, same_state, payload_bytes, pending, acked, blocked,
}
use latticeag_gateway.Sync.Engine.{
  Engine, EnqueueArgs, enqueue, enqueue_under, store_item, or_nil, add, admit, new_item,
  enabled_consent, pause, unpause, set_paused, resume_stream, repair, transition, delete,
}
use latticeag_gateway.Sync.Sends.{block_all, retry_all, move_each}
use latticeag_gateway.Sync.Answers.{
  Answer, ack, refused, failed, settle_answer, or_retry, mark_through,
}
use latticeag_gateway.Sync.Moves.{
  item_key, ItemLater, ItemLater-refl, ItemLater-trans, ItemLater-due, ItemsLater, items_stay,
  items_put, Kept, Kept-refl, Kept-trans, then-Kept, move_each-Kept, block_all-Kept, retry_all-Kept,
  transition-Kept,
}

payload-cases :
    {A : Type 0} (r : Result A) → ((a : A) × (r ≡ ok a)) ⊎ ((x : RpcError) × (r ≡ err x))
payload-cases (ok a) = inl (a, refl)
payload-cases (err x) = inr (x, refl)

-- Only the items count for the items.
same_items :
    (e e' : Engine) → e'.items ≡ e.items → Keyed item_key e.items → ItemsLater e.items e'.items
same_items e e' same keyed = rw same (items_stay e.items keyed)

module _ (now : ℕ) (jitter : String → ℕ → ℕ) (ids : List String) where
  or_retry-Kept :
      (m : Exec Engine (Unit {0})) (e : Engine)
      → Kept e (m e).1
      → Kept e (or_retry now jitter ids m e).1
  unfolding or_retry
  or_retry-Kept m e h = go (m e) h
    where
      go :
          (o : Result (Unit {0}) × Engine)
          → Kept e o.1
          → Kept e
              (let after : Result (Unit {0}) × Engine = elim o.0 [
                | ok u ↦ (ok u, o.1)
                | err x ↦ retry_all now jitter none ids o.1
              ] in
                after).1
      go (ok u, e') h = h
      go (err x, e') h =
          Kept-trans e e' (retry_all now jitter none ids e').1 h
            (retry_all-Kept now jitter none ids e' h.later.keyed)

  acks-Kept :
      (s : Stream) (through : String) (e : Engine)
      → Keyed item_key e.items
      → Kept e ((move_each (λ id e. e) acked ids >> modify (mark_through s through)) e).1
  acks-Kept s through e keyed =
      then-Kept (move_each (λ id e. e) acked ids) (modify (mark_through s through)) e
        (move_each-Kept (λ id e. e) (λ id e k. Kept-refl e k) acked ids e keyed)
        (λ e' k. record {
          later = items_stay e'.items k;
          sends = refl;
          count = refl;
          streams = refl;
          admits = λ r id i. i;
        })

  pub settle_answer-Kept :
      (s : Stream) (a : Answer) (e : Engine)
      → Keyed item_key e.items
      → Kept e (settle_answer now jitter s ids a e).1
  unfolding settle_answer
  settle_answer-Kept s (refused code) e keyed = block_all-Kept code ids e keyed
  settle_answer-Kept s (failed retry_after) e keyed =
      retry_all-Kept now jitter retry_after ids e keyed
  settle_answer-Kept s (ack false conflicts stored through) e keyed =
      retry_all-Kept now jitter none ids e keyed
  settle_answer-Kept s (ack true true stored through) e keyed =
      or_retry-Kept (block_all object_conflict ids) e (block_all-Kept object_conflict ids e keyed)
  settle_answer-Kept s (ack true false true through) e keyed =
      or_retry-Kept (move_each (λ id e. e) acked ids >> modify (mark_through s through)) e
        (acks-Kept s through e keyed)
  settle_answer-Kept s (ack true false false through) e keyed =
      or_retry-Kept (retry_all now jitter none ids) e (retry_all-Kept now jitter none ids e keyed)

includes_more :
    (l : List String) (x y : String) → includes l y ≡ true → includes (l ++ (x ∷ [])) y ≡ true
includes_more [] x y h = absurd (ground arith)
includes_more (z ∷ l) x y h = ground (arith, h, includes_more l x y)

add-includes : (l : List String) (x y : String) → includes l y ≡ true → includes (add l x) y ≡ true
add-includes l x y h = ground (arith, h, includes_more l x y h)

-- Adding to the set of a run keeps what the sets have.
put-add :
    (t : Table (List String)) (r x q y : String)
    → includes (or_nil (get q t)) y ≡ true
    → includes (or_nil (get q (put r (add (or_nil (get r t)) x) t))) y ≡ true
put-add t r x q y h = elim (Bool-cases (r =ₛ q)) [
  | inl same ↦
      let e : r ≡ q = (eq_iff r q).0 same in
      rw (get-put r q (add (or_nil (get r t)) x) t, same, e) (add-includes (or_nil (get q t)) x y h)
  | inr differs ↦ rw (get-put r q (add (or_nil (get r t)) x) t, differs) h
]

-- A new item stands under an id that no item had.
put_new :
    (t : Table OutboxItem) (i : OutboxItem)
    → Keyed item_key t
    → get i.id t ≡ none
    → ItemsLater t (put i.id i t)
put_new t i keyed fresh =
    put_table item_key ItemLater ItemLater-refl ItemLater-trans t i.id i keyed refl (rw fresh tt)

module _ (item_id : Consent → Stream → NativeRef → String) (now : ℕ) (a : EnqueueArgs) (e : Engine)
    (keyed : Keyed item_key e.items) where
  admits-Kept :
      (run : Option String) (i : OutboxItem)
      → get i.id e.items ≡ none
      → Kept e (admit run i.id (record e { items = put i.id i e.items }))
  admits-Kept none i fresh = record {
    later = put_new e.items i keyed fresh;
    sends = refl;
    count = refl;
    streams = refl;
    admits = λ r id h. h;
  }
  admits-Kept (some r) i fresh = record {
    later = put_new e.items i keyed fresh;
    sends = refl;
    count = refl;
    streams = refl;
    admits = λ q id h. put-add e.run_items r i.id q id h;
  }

  store_item-writes :
      (c : Consent) (id : String) (payload : Payload)
      → ((store_item now a c id payload none e).1 ≡ e)
        ⊎ ((store_item now a c id payload none e).1
            ≡ admit a.run id (record e { items = put id (new_item now id a c payload) e.items }))
  unfolding store_item
  store_item-writes c id payload = ground arith

  store_item-Kept :
      (c : Consent) (id : String) (payload : Payload) (existing : Option OutboxItem)
      → get id e.items ≡ existing
      → Kept e (store_item now a c id payload existing e).1
  unfolding store_item
  store_item-Kept c id payload (some i) found = Kept-refl e keyed
  store_item-Kept c id payload none fresh = elim (store_item-writes c id payload) [
    | inl same ↦ rw same (Kept-refl e keyed)
    | inr writes ↦ rw writes (admits-Kept a.run (new_item now id a c payload) fresh)
  ]

  enqueue_under-Kept : (consent : Option Consent) → Kept e (enqueue_under item_id now a consent e).1
  unfolding enqueue_under
  enqueue_under-Kept none = Kept-refl e keyed
  enqueue_under-Kept (some c) = elim (payload-cases a.projected) [
    | inl (payload, got) ↦ rw got (elim (Bool-cases (ltb payload_bytes payload.bytes)) [
      | inl large ↦ rw large (Kept-refl e keyed)
      | inr fits ↦ rw fits (
          store_item-Kept c (item_id c a.stream a.source) payload
            (get (item_id c a.stream a.source) e.items) refl)
    ])
    | inr (x, denied) ↦ rw denied (Kept-refl e keyed)
  ]

  pub enqueue-Kept : Kept e (enqueue item_id now a e).1
  unfolding enqueue
  enqueue-Kept = enqueue_under-Kept (enabled_consent (e.consents a.stream))

pub repair-Kept :
    (now : ℕ) (id : String) (e : Engine) → Keyed item_key e.items → Kept e (repair now id e).1
unfolding repair
repair-Kept now id e keyed = elim (Option-cases (get id e.items)) [
  | inl missing ↦ rw (repair, missing) (Kept-refl e keyed)
  | inr (i, found) ↦
      rw (repair, found)
        (elim (Bool-cases (same_state i.state blocked)) [
          | inr other ↦ rw other (Kept-refl e keyed)
          | inl is ↦
              let due : OutboxItem = record i { next_attempt_ms = now } in
              let e' : Engine = record e {
                items = put i.id due e.items;
                blocked_code = delete id e.blocked_code;
              } in
              let h : Kept e e' = record {
                later = items_put e.items id i due keyed found (ItemLater-due i now);
                sends = refl;
                count = refl;
                streams = refl;
                admits = λ r id i. i;
              } in
              rw is (
                Kept-trans e e' (transition id pending e').1 h
                  (transition-Kept pending id e' h.later.keyed))
        ])
]

pub pause-Kept : (ss : List Stream) (e : Engine) → Keyed item_key e.items → Kept e (pause ss e)
unfolding pause set_paused
pause-Kept [] e keyed = Kept-refl e keyed
pause-Kept (s ∷ ss) e keyed =
    let h = pause-Kept ss (set_paused true s e) keyed in
    record {
      later = h.later;
      sends = h.sends;
      count = h.count;
      streams = h.streams;
      admits = h.admits;
    }

resume_stream-Kept :
    (s : Stream) (consent : Option Consent) (e : Engine)
    → Keyed item_key e.items
    → Kept e (resume_stream s consent e)
unfolding resume_stream set_paused
resume_stream-Kept s none e keyed = Kept-refl e keyed
resume_stream-Kept s (some c) e keyed = record {
  later = items_stay e.items keyed;
  sends = refl;
  count = refl;
  streams = refl;
  admits = λ r id i. i;
}

pub unpause-Kept : (ss : List Stream) (e : Engine) → Keyed item_key e.items → Kept e (unpause ss e)
unfolding unpause
unpause-Kept [] e keyed = Kept-refl e keyed
unpause-Kept (s ∷ ss) e keyed =
    let e' : Engine = resume_stream s (enabled_consent (e.consents s)) e in
    let h = resume_stream-Kept s (enabled_consent (e.consents s)) e keyed in
    Kept-trans e e' (unpause ss e') h (unpause-Kept ss e' h.later.keyed)
