-- ===== src/Sync/Sends.antt =====
-- packages/core/src/v2/sync/outbox.ts: batches, the sends and what their promises do. `runSend` is cut at
-- its `await`s: a call runs up to the next one, and an event goes on from there.
use latticeag_gateway.Base.{
  ℕ, zero, suc, ◌+◌, ◌-◌, String, Bool, true, false, not, ◌&&◌, ◌||◌, Option, none, some, List, [],
  ◌∷◌, ◌++◌, map, leb, ltb, if◌then◌else◌, any, filter, find, take,
}
use latticeag_gateway.Base.Table.{Table, get, put, values}
use latticeag_gateway.Protocol.Errors.{ErrorCode, cap_adapter_unavailable}
use latticeag_gateway.Exec.{Result, ok, err, Exec, pure, ◌>>◌, modify}
use latticeag_gateway.Sync.{
  Stream, runs, receipts, lineage, approvals, watch, mesh, same_stream, OutboxState, pending,
  in_flight, retry, blocked, same_state, batch_events, batch_bytes, global_senders, backoff_cap_ms,
  backoff_cap, smaller, larger, OutboxItem,
}
use latticeag_gateway.Sync.Engine.{
  OutboxBatch, Phase, preparing, sending, settling, Engine, is_paused, transition,
}

pub record SendPorts : Type 0 where
  -- batchHash
  pub batch_hash : List OutboxItem → String
  -- the adapter of a destination, and whether it has `prepare`
  pub sink : String → Option Bool

abbrev pub stream_priority : List Stream
stream_priority = approvals ∷ receipts ∷ lineage ∷ runs ∷ watch ∷ mesh ∷ []

abbrev pub sendable : Engine → ℕ → OutboxItem → Bool
sendable e now i =
    not (is_paused e i.stream)
    && (same_state i.state pending || same_state i.state retry && leb i.next_attempt_ms now)

-- The items of a stream that may be sent now.
unfoldable pub ready_items : Engine → Stream → ℕ → List OutboxItem
ready_items e s now = filter (λ i. same_stream i.stream s && sendable e now i) (values e.items)

abbrev pub in_scope : Option (List Stream) → Stream → Bool
in_scope none s = true
in_scope (some ss) s = any (same_stream s) ss

abbrev pub is_empty {ℓ} : {A : Type ℓ} → List A → Bool
is_empty [] = true
is_empty (x ∷ xs) = false

abbrev pub may_pick : Engine → ℕ → Option (List Stream) → Stream → Bool
may_pick e now scope s =
    in_scope scope s
    && not (any (same_stream s) e.stream_in_flight)
    && not (is_paused e s)
    && not (is_empty (ready_items e s now))

unfoldable pub pick_stream : Engine → ℕ → Option (List Stream) → Option Stream
unfolding ready_items
pick_stream e now scope = find (may_pick e now scope) stream_priority

abbrev pub joined : Option (List String) → String → List String
joined none id = id ∷ []
joined (some ids) id = ids ++ (id ∷ [])

abbrev pub is_none {ℓ} : {A : Type ℓ} → Option A → Bool
is_none none = true
is_none (some a) = false

-- A turn of the loop that groups the ready items, with the batch of the item.
unfoldable pub group_item : Option String → String → Table (List String) → Table (List String)
group_item none id groups = groups
group_item (some h) id groups = put h (joined (get h groups) id) groups

-- The map `byBatch`.
unfoldable pub by_batch : Table String → Table (List String) → List OutboxItem → Table (List String)
unfolding group_item
by_batch prior groups [] = groups
by_batch prior groups (i ∷ is) = by_batch prior (group_item (get i.id prior) i.id groups) is

-- Whether an item stands in the list `fresh`.
abbrev pub is_fresh : Table String → OutboxItem → Bool
is_fresh prior i = is_none (get i.id prior)

-- The loop that fills a new batch; `started` is `members.length > 0`.
unfoldable pub fill : Bool → ℕ → List OutboxItem → List String
fill started bytes [] = []
fill started bytes (i ∷ is) = elim (started && leb batch_bytes (bytes + i.payload.bytes)) [
  | true ↦ []
  | false ↦ i.id ∷ fill true (bytes + i.payload.bytes) is
]

-- The first group, or else a new batch of the fresh items.
unfoldable pub members_of : Table String → List OutboxItem → Table (List String) → List String
unfolding fill
members_of prior ready [] = fill false 0 (take batch_events (filter (is_fresh prior) ready))
members_of prior ready (g ∷ gs) = g.1

unfoldable pub next_batch_members : Engine → Stream → ℕ → List String
unfolding ready_items by_batch members_of
next_batch_members e s now =
    let ready : List OutboxItem = ready_items e s now in
    members_of e.item_batch ready (by_batch e.item_batch [] ready)

-- `for (const item of items) { mark(item); this.transition(item, to); }`
unfoldable pub move_each :
    (String → Engine → Engine) → OutboxState → List String → Exec Engine (Unit {0})
move_each mark to [] = pure tt
move_each mark to (id ∷ ids) = do modify (mark id); transition id to; move_each mark to ids

-- An assignment to fields of an item.
unfoldable pub change_item : String → (OutboxItem → OutboxItem) → Engine → Engine
change_item id f e = elim (get id e.items) [
  | none ↦ e
  | some i ↦ record e { items = put i.id (f i) e.items }
]

unfoldable pub block_all : ErrorCode → List String → Exec Engine (Unit {0})
unfolding move_each
block_all code ids =
    move_each (λ id e. record e { blocked_code = put id code e.blocked_code }) blocked ids

-- `jitter id c` is `Math.floor(random() * (c + 1))`, as drawn for that item.
abbrev pub delay_of : (String → ℕ → ℕ) → Option ℕ → OutboxItem → ℕ
delay_of jitter none i = jitter i.id (backoff_cap (i.attempts - 1))
delay_of jitter (some retry_after) i =
    larger (jitter i.id (backoff_cap (i.attempts - 1))) (smaller retry_after backoff_cap_ms)

unfoldable pub retry_all : ℕ → (String → ℕ → ℕ) → Option ℕ → List String → Exec Engine (Unit {0})
unfolding move_each change_item
retry_all now jitter retry_after ids =
    move_each
      (λ id.
        change_item id (λ i. record i { next_attempt_ms = now + delay_of jitter retry_after i }))
      retry ids

-- The rows of a list of ids that are there and can be sent.
unfoldable pub live_items : Table OutboxItem → List String → List OutboxItem
live_items t [] = []
live_items t (id ∷ ids) =
    let rest = live_items t ids in
    elim (get id t) [
      | none ↦ rest
      | some i ↦ if same_state i.state pending || same_state i.state retry then i ∷ rest else rest
    ]

abbrev last_through : String → List OutboxItem → String
last_through t [] = t
last_through t (i ∷ is) = last_through i.through is

-- outboxBatch(items, items[0].remote_stage), for the items that follow the first one.
abbrev pub outbox_batch : SendPorts → OutboxItem → List OutboxItem → OutboxBatch
outbox_batch p i is = record {
  destination = i.destination;
  cohort = i.cohort;
  stream = i.stream;
  items = map (λ x. x.id) (i ∷ is);
  hash = p.batch_hash (i ∷ is);
  through = last_through i.through is;
  stage = i.remote_stage;
}

abbrev pub add_send : Stream → List String → OutboxBatch → Phase → Engine → Engine
add_send s members batch phase e = record e {
  pending_sends =
      record { stream = s; members = members; batch = batch; phase = phase } ∷ e.pending_sends;
}

abbrev pub journal : OutboxBatch → Option String → String → Engine → Engine
journal batch stage id e =
    change_item id (λ i. record i { remote_stage = stage; attempts = i.attempts + 1 })
      (record e { item_batch = put id batch.hash e.item_batch })

abbrev pub phase_after : Result (Unit {0}) → Phase
phase_after (ok u) = sending
phase_after (err x) = settling

-- From the journal of the batch to the call of `sink.send`; a throw there rejects the promise.
unfoldable pub dispatch : Stream → List String → OutboxBatch → Option String → Engine → Engine
unfolding move_each change_item
dispatch s members batch stage e =
    let (r, e') =
      move_each (journal batch stage) in_flight batch.items
        (record e { batch_members = put batch.hash members e.batch_members }) in
    add_send s members (record batch { stage = stage }) (phase_after r) e'

abbrev pub no_batch : Stream → OutboxBatch
no_batch s = record {
  destination = "";
  cohort = "";
  stream = s;
  items = [];
  hash = "";
  through = "";
  stage = none;
}

-- `runSend` with the sink of the batch; an absent one blocks its items.
unfoldable pub hand_over :
    SendPorts → Stream → List String → OutboxBatch → Option Bool → Engine → Engine
unfolding block_all dispatch
hand_over p s members batch none e =
    add_send s members batch settling (block_all cap_adapter_unavailable batch.items e).1
hand_over p s members batch (some has_prepare) e =
    if has_prepare
    then add_send s members batch preparing e
    else dispatch s members batch batch.stage e

-- `runSend` with the items that it found.
unfoldable pub send_items : SendPorts → Stream → List String → List OutboxItem → Engine → Engine
unfolding hand_over
send_items p s members [] e = add_send s members (no_batch s) settling e
send_items p s members (i ∷ is) e =
    let batch : OutboxBatch = outbox_batch p i is in
    hand_over p s members batch (p.sink batch.destination) e

-- `runSend` up to its first `await`.
unfoldable pub run_send : SendPorts → Stream → List String → Engine → Engine
unfolding live_items send_items
run_send p s members e = send_items p s members (live_items e.items members) e

unfoldable pub start_send : SendPorts → Stream → List String → Engine → Engine
unfolding run_send
start_send p s [] e = e
start_send p s (id ∷ ids) e = run_send p s (id ∷ ids) (record e {
  in_flight_sends = e.in_flight_sends + 1;
  stream_in_flight = s ∷ e.stream_in_flight;
})

-- The `while` of `pump`; each turn takes one of its fuel.
unfoldable pub pump : ℕ → SendPorts → ℕ → Option (List Stream) → Engine → Engine
pump zero p now scope e = e
pump (suc fuel) p now scope e = elim (ltb e.in_flight_sends global_senders) [
  | false ↦ e
  | true ↦ elim (pick_stream e now scope) [
    | none ↦ e
    | some s ↦ pump fuel p now scope (start_send p s (next_batch_members e s now) e)
  ]
]
