-- ===== src/Sync/Moves.antt =====
-- packages/core/src/v2/sync/outbox.ts: what `transition` and the loops over the items of a batch write.
use latticeag_gateway.Base.{
  ℕ, ◌+◌, ◌≤◌, String, true, false, ◌≡◌, ◌⊎◌, inl, inr, refl, Option, some, List, [], ◌∷◌, arith,
  ◌∙◌, Bool-cases, Option-cases, includes,
}
use latticeag_gateway.Base.Table.{Table, get, put, Keyed, get-Keyed}
use latticeag_gateway.Base.Table.Later.{TableLater, same_table, then_table, put_table}
use latticeag_gateway.Protocol.Errors.{ErrorCode}
use latticeag_gateway.Exec.{Result, ok, err, Exec, ◌>>◌}
use latticeag_gateway.Sync.{
  OutboxState, same_state, retry, blocked, acked, can_outbox_transition, OutboxItem,
}
use latticeag_gateway.Sync.Engine.{Engine, or_nil, transition}
use latticeag_gateway.Sync.Sends.{move_each, change_item, block_all, retry_all, delay_of}

abbrev pub item_key : OutboxItem → String
item_key i = i.id

-- A later version of an item: what it exports, where and under which consent stays, the count of
-- attempts never falls, and an ACKED item stays ACKED.
pub record ItemLater (i i' : OutboxItem) : Type 0 where
  pub binding : i' ≡ record i {
    state = i'.state;
    attempts = i'.attempts;
    next_attempt_ms = i'.next_attempt_ms;
    remote_stage = i'.remote_stage;
  }
  pub attempts : i.attempts ≤ i'.attempts
  pub settled : (same_state i.state acked ≡ false) ⊎ (i'.state ≡ acked)

pub state-acked : (s : OutboxState) → same_state s acked ≡ true → s ≡ acked
state-acked s is = ground (arith, is)

pub ItemLater-refl : (i : OutboxItem) → ItemLater i i
ItemLater-refl i = record {
  binding = refl;
  attempts = omega arith;
  settled = elim (Bool-cases (same_state i.state acked)) [
    | inl is ↦ inr (state-acked i.state is)
    | inr other ↦ inl other
  ];
}

pub ItemLater-trans : (a b c : OutboxItem) → ItemLater a b → ItemLater b c → ItemLater a c
ItemLater-trans a b c h k = record {
  binding = ground (arith, h.binding, k.binding);
  attempts = omega (arith, h.attempts, k.attempts);
  settled = elim h.settled [
    | inl other ↦ inl other
    | inr same ↦ elim k.settled [
      | inl other ↦ absurd (ground (arith, other, same))
      | inr same' ↦ inr same'
    ]
  ];
}

abbrev pub ItemsLater : Table OutboxItem → Table OutboxItem → Type 0
ItemsLater t t' = TableLater item_key ItemLater t t'

pub items_stay : (t : Table OutboxItem) → Keyed item_key t → ItemsLater t t
items_stay t keyed = same_table item_key ItemLater ItemLater-refl ItemLater-trans t keyed

pub items_then : (a b c : Table OutboxItem) → ItemsLater a b → ItemsLater b c → ItemsLater a c
items_then a b c h k = then_table item_key ItemLater ItemLater-refl ItemLater-trans a b c h k

pub items_put :
    (t : Table OutboxItem) (id : String) (i i' : OutboxItem)
    → Keyed item_key t
    → get id t ≡ some i
    → ItemLater i i'
    → ItemsLater t (put i.id i' t)
items_put t id i i' keyed found h =
    let own : i.id ≡ id = get-Keyed item_key id t i keyed found in
    put_table item_key ItemLater ItemLater-refl ItemLater-trans t i.id i' keyed
      (ground (arith, h.binding)) (rw (own, found) h)

-- What a run admitted stays admitted.
abbrev pub Admits : Engine → Engine → Type 0
Admits e e' =
    (r id : String)
    → includes (or_nil (get r e.run_items)) id ≡ true
    → includes (or_nil (get r e'.run_items)) id ≡ true

-- The items go on, and the sends stay as they are.
pub record Kept (e e' : Engine) : Type 0 where
  pub later : ItemsLater e.items e'.items
  pub sends : e'.pending_sends ≡ e.pending_sends
  pub count : e'.in_flight_sends ≡ e.in_flight_sends
  pub streams : e'.stream_in_flight ≡ e.stream_in_flight
  pub admits : Admits e e'

abbrev pub KeyedItems : Engine → Type 0
KeyedItems e = Keyed item_key e.items

pub Kept-refl : (e : Engine) → Keyed item_key e.items → Kept e e
Kept-refl e keyed = record {
  later = items_stay e.items keyed;
  sends = refl;
  count = refl;
  streams = refl;
  admits = λ r id i. i;
}

pub Kept-trans : (a b c : Engine) → Kept a b → Kept b c → Kept a c
Kept-trans a b c h k = record {
  later = items_then a.items b.items c.items h.later k.later;
  sends = k.sends ∙ h.sends;
  count = k.count ∙ h.count;
  streams = k.streams ∙ h.streams;
  admits = λ r id i. k.admits r id (h.admits r id i);
}

-- What may be done to an item before it moves.
abbrev pub Marks : (String → Engine → Engine) → Type 0
Marks mark = (id : String) (e : Engine) → Keyed item_key e.items → Kept e (mark id e)

pub change_item-Kept :
    (f : OutboxItem → OutboxItem)
    → ((i : OutboxItem) → ItemLater i (f i))
    → Marks (λ id. change_item id f)
unfolding change_item
change_item-Kept f h id e keyed = elim (Option-cases (get id e.items)) [
  | inl missing ↦ rw (change_item, missing) (Kept-refl e keyed)
  | inr (i, found) ↦
      rw (change_item, found)
        (record {
          later = items_put e.items id i (f i) keyed found (h i);
          sends = refl;
          count = refl;
          streams = refl;
          admits = λ r id i. i;
        })
]

from_acked : (s to : OutboxState) → can_outbox_transition s to ≡ true → same_state s acked ≡ false
from_acked s to can = ground (arith, can)

-- A transition that is allowed.
ItemLater-state :
    (to : OutboxState) (i : OutboxItem)
    → can_outbox_transition i.state to ≡ true
    → ItemLater i (record i { state = to })
ItemLater-state to i can = record {
  binding = refl;
  attempts = omega arith;
  settled = inl (from_acked i.state to can);
}

pub transition-Kept :
    (to : OutboxState) (id : String) (e : Engine)
    → Keyed item_key e.items
    → Kept e (transition id to e).1
unfolding transition
transition-Kept to id e keyed = elim (Option-cases (get id e.items)) [
  | inl missing ↦ rw missing (Kept-refl e keyed)
  | inr (i, found) ↦ rw found (elim (Bool-cases (can_outbox_transition i.state to)) [
    | inl can ↦ rw can (record {
      later =
          items_put e.items id i (record i { state = to }) keyed found (ItemLater-state to i can);
      sends = refl;
      count = refl;
      streams = refl;
      admits = λ r id i. i;
    })
    | inr cannot ↦ rw cannot (Kept-refl e keyed)
  ])
]

-- A step behind another one, unless that threw.
pub then-Kept :
    (m k : Exec Engine (Unit {0})) (e : Engine)
    → Kept e (m e).1
    → ((e' : Engine) → Keyed item_key e'.items → Kept e' (k e').1)
    → Kept e ((m >> k) e).1
then-Kept m k e first next = go (m e) refl first
  where
    go :
        (o : Result (Unit {0}) × Engine)
        → m e ≡ o
        → Kept e o.1
        → Kept e
            (let after : Result (Unit {0}) × Engine = elim o.0 [
              | ok u ↦ k o.1
              | err x ↦ (err x, o.1)
            ] in
              after).1
    go (ok u, e') eq h = Kept-trans e e' (k e').1 h (next e' h.later.keyed)
    go (err x, e') eq h = h

pub move_each-Kept :
    (mark : String → Engine → Engine)
    → Marks mark
    → (to : OutboxState) (ids : List String) (e : Engine) → Keyed item_key e.items
    → Kept e (move_each mark to ids e).1
unfolding move_each
move_each-Kept mark marks to [] e keyed = Kept-refl e keyed
move_each-Kept mark marks to (id ∷ ids) e keyed =
    let h = marks id e keyed in
    Kept-trans e (mark id e) (move_each mark to (id ∷ ids) e).1 h (
      then-Kept (transition id to) (move_each mark to ids) (mark id e)
        (transition-Kept to id (mark id e) h.later.keyed) (move_each-Kept mark marks to ids))

pub block_all-Kept :
    (code : ErrorCode) (ids : List String) (e : Engine)
    → Keyed item_key e.items
    → Kept e (block_all code ids e).1
unfolding block_all
block_all-Kept code ids e keyed =
    move_each-Kept (λ id e. record e { blocked_code = put id code e.blocked_code })
      (λ id e k. record {
        later = items_stay e.items k;
        sends = refl;
        count = refl;
        streams = refl;
        admits = λ r id i. i;
      })
      blocked ids e keyed

pub ItemLater-due : (i : OutboxItem) (ms : ℕ) → ItemLater i (record i { next_attempt_ms = ms })
ItemLater-due i ms =
    let h = ItemLater-refl i in
    record { binding = refl; attempts = h.attempts; settled = h.settled }

pub retry_all-Kept :
    (now : ℕ) (jitter : String → ℕ → ℕ) (retry_after : Option ℕ) (ids : List String) (e : Engine)
    → Keyed item_key e.items
    → Kept e (retry_all now jitter retry_after ids e).1
unfolding retry_all
retry_all-Kept now jitter retry_after ids e keyed =
    let f : OutboxItem → OutboxItem =
      λ i. record i { next_attempt_ms = now + delay_of jitter retry_after i } in
    move_each-Kept (λ id. change_item id f)
      (change_item-Kept f (λ i. ItemLater-due i (now + delay_of jitter retry_after i))) retry ids e
      keyed
