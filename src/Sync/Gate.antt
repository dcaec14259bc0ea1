-- ===== src/Sync/Gate.antt =====
-- packages/core/src/v2/sync/outbox.ts: what `failOnSyncStatus` promises of the work that a run admitted.
use latticeag_gateway.Base.{
  ℕ, ◌≤◌, String, true, ◌≡◌, inl, inr, refl, ap, ◌∙◌, Option, none, some, List, [], ◌∷◌, ◌++◌,
  arith, eq_iff, eq_refl, Bool-cases, ◌=ₛ◌, filter, includes,
}
use latticeag_gateway.Base.Table.{Table, get, put, get-put_self}
use latticeag_gateway.Exec.{ok}
use latticeag_gateway.Approvals.{NativeRef}
use latticeag_gateway.Sync.{Stream, OutboxItem, acked, same_state, payload_bytes, Consent, Payload}
use latticeag_gateway.Sync.Engine.{
  Engine, or_nil, add, EnqueueArgs, enqueue, enqueue_under, store_item, admit, new_item,
}
use latticeag_gateway.Sync.Sends.{is_empty}
use latticeag_gateway.Sync.Events.{EnginePorts, Event, run, step, enqueues}
use latticeag_gateway.Sync.Moves.{state-acked}
use latticeag_gateway.Sync.Slots.{Slots}
use latticeag_gateway.Sync.Schedule.{Runs}
use latticeag_gateway.Sync.Runs.{run-Runs}
use latticeag_gateway.Sync.Safety.{IsIdle, reached-Slots, item_later}
use latticeag_gateway.Sync.Status.{fail_on_sync_status, run_ids, items_of, cons_found, is_open}

cons_found-empty :
    (o : Option OutboxItem) (l : List OutboxItem)
    → is_empty (filter is_open (cons_found o l)) ≡ true
    → is_empty (filter is_open l) ≡ true
cons_found-empty none l h = h
cons_found-empty (some i) l h = ground (arith, h)

cons_found-settled :
    (o : Option OutboxItem) (l : List OutboxItem) (i : OutboxItem)
    → o ≡ some i
    → is_empty (filter is_open (cons_found o l)) ≡ true
    → same_state i.state acked ≡ true
cons_found-settled none l i e h = absurd (ground arith)
cons_found-settled (some j) l i e h = ground (arith, e, h)

pub all_settled :
    (t : Table OutboxItem) (ids : List String) (id : String) (i : OutboxItem)
    → includes ids id ≡ true
    → get id t ≡ some i
    → is_empty (filter is_open (items_of t ids)) ≡ true
    → same_state i.state acked ≡ true
unfolding items_of
all_settled t [] id i has found empty = absurd (ground arith)
all_settled t (j ∷ ids) id i has found empty = elim (Bool-cases (j =ₛ id)) [
  | inl same ↦
      let e : j ≡ id = (eq_iff j id).0 same in
      cons_found-settled (get j t) (items_of t ids) i (ap (λ k. get k t) e ∙ found) empty
  | inr differs ↦
      all_settled t ids id i (ground (arith, has, differs)) found
        (cons_found-empty (get j t) (items_of t ids) empty)
]

-- An item that a run admitted, in a run that has nothing left.
settled_in :
    (e : Engine) (r id : String) (i : OutboxItem)
    → includes (or_nil (get r e.run_items)) id ≡ true
    → get id e.items ≡ some i
    → (fail_on_sync_status e (some r)).empty ≡ true
    → i.state ≡ acked
unfolding fail_on_sync_status run_ids
settled_in e r id i has found empty =
    state-acked i.state
      (all_settled e.items (or_nil (get r e.run_items)) id i has found (ground (arith, empty)))

-- An item that a run admitted at the start of a run of events.
settled_after :
    (e e' : Engine) (r id : String) (i : OutboxItem)
    → Runs e e'
    → includes (or_nil (get r e.run_items)) id ≡ true
    → get id e.items ≡ some i
    → (fail_on_sync_status e' (some r)).empty ≡ true
    → (i' : OutboxItem) × (get id e'.items ≡ some i')
      × (i'.state ≡ acked)
      × (i'.payload ≡ i.payload)
settled_after e e' r id i h has found empty =
    let (i', found', later) = item_later e e' id i h found in
    (
      i',
      found',
      settled_in e' r id i' (h.admits r id has) found' empty,
      ap (λ x. x.payload) later.binding,
    )

includes_self : (l : List String) (x : String) → includes (l ++ (x ∷ [])) x ≡ true
includes_self [] x = rw (eq_refl x) refl
includes_self (z ∷ l) x = ground (arith, includes_self l x)

includes-add : (l : List String) (x : String) → includes (add l x) x ≡ true
includes-add l x = ground (arith, includes_self l x)

admit-run :
    (r id : String) (f : Engine)
    → includes (or_nil (get r (admit (some r) id f).run_items)) id ≡ true
admit-run r id f =
    rw (get-put_self r (add (or_nil (get r f.run_items)) id) f.run_items)
      (includes-add (or_nil (get r f.run_items)) id)

module _ (item_id : Consent → Stream → NativeRef → String) (now : ℕ) (a : EnqueueArgs) (c : Consent)
    (payload : Payload) (e : Engine) (has : e.consents a.stream ≡ some c) (on : c.enabled ≡ true)
    (projects : a.projected ≡ ok payload) (small : payload.bytes ≤ payload_bytes)
    (fresh : get (item_id c a.stream a.source) e.items ≡ none) (calm : a.commit ≡ none) where
  pub enqueue-new :
      let id : String = item_id c a.stream a.source in
      let i : OutboxItem = new_item now id a c payload in
      enqueue item_id now a e
      ≡ (ok (some i), admit a.run id (record e { items = put id i e.items }))
  unfolding enqueue enqueue_under store_item
  enqueue-new = ground (arith, has, on, projects, small, fresh, calm)

module _ (p : EnginePorts) (now : ℕ) (a : EnqueueArgs) (c : Consent) (payload : Payload)
    (r : String) (e : Engine) (k : Slots e) where
  admitted_from :
      e.consents a.stream ≡ some c
      → c.enabled ≡ true
      → a.projected ≡ ok payload
      → payload.bytes ≤ payload_bytes
      → get (p.item_id c a.stream a.source) e.items ≡ none
      → a.commit ≡ none
      → a.run ≡ some r
      → (xs : List Event)
      → (fail_on_sync_status (run p (enqueues now a ∷ xs) e) (some r)).empty ≡ true
      → (i : OutboxItem) × (get
            (p.item_id c a.stream a.source)
            (run p (enqueues now a ∷ xs) e).items
          ≡ some i)
        × (i.state ≡ acked)
        × (i.payload ≡ payload)
  unfolding run step
  admitted_from has on projects small fresh calm under xs empty =
      let id : String = p.item_id c a.stream a.source in
      let i : OutboxItem = new_item now id a c payload in
      let e' : Engine = (enqueue p.item_id now a e).1 in
      let slots : Slots e' = (run-Runs p (enqueues now a ∷ []) e k).slots in
      let new = enqueue-new p.item_id now a c payload e has on projects small fresh calm in
      let e_is : e' ≡ admit (some r) id (record e { items = put id i e.items }) =
        ap (λ x. x.1) new ∙ ap (λ o. admit o id (record e { items = put id i e.items })) under in
      settled_after e' (run p xs e') r id i (run-Runs p xs e' slots)
        (rw e_is (admit-run r id (record e { items = put id i e.items })))
        (rw e_is (get-put_self id i e.items)) empty

module _ (p : EnginePorts) (ys : List Event) (e : Engine) (idle : IsIdle e) where
  -- Let the engine start over a store with no send under way. In any state that it then comes to, also one
  -- with sends under way, let an enqueue under a run, on a stream with an enabled consent, store a new
  -- item: its id is new, its projection within the limit, and its hook does not throw. Whatever events
  -- follow, in whatever order, `failOnSyncStatus` of the run says empty only if that item was ACKED, with
  -- the payload as enqueued.
  pub admitted_until_acked :
      (now : ℕ) (a : EnqueueArgs) (c : Consent) (payload : Payload) (r : String)
      → (run p ys e).consents a.stream ≡ some c
      → c.enabled ≡ true
      → a.projected ≡ ok payload
      → payload.bytes ≤ payload_bytes
      → get (p.item_id c a.stream a.source) (run p ys e).items ≡ none
      → a.commit ≡ none
      → a.run ≡ some r
      → (xs : List Event)
      → (fail_on_sync_status (run p (enqueues now a ∷ xs) (run p ys e)) (some r)).empty ≡ true
      → (i : OutboxItem) × (get
            (p.item_id c a.stream a.source)
            (run p (enqueues now a ∷ xs) (run p ys e)).items
          ≡ some i)
        × (i.state ≡ acked)
        × (i.payload ≡ payload)
  admitted_until_acked now a c payload r =
      admitted_from p now a c payload r (run p ys e) (reached-Slots p ys e idle)
