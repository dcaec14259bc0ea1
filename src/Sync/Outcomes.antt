-- ===== src/Sync/Outcomes.antt =====
-- packages/core/src/v2/sync/outbox.ts: what an answer of a sink makes of the items of its batch.
use latticeag_gateway.Base.{
  ℕ, ◌+◌, ◌-◌, ◌≤◌, String, Bool, true, false, ◌&&◌, ◌≡◌, refl, ap, ◌∙◌, Option, none, some, List,
  [], ◌∷◌, arith, &&-left, &&-right, if◌then◌else◌, includes,
}
use latticeag_gateway.Base.Table.{Table, Keyed, get, put}
use latticeag_gateway.Protocol.Errors.{ErrorCode, object_conflict}
use latticeag_gateway.Exec.{Result, ok, err, Exec, ◌>>◌, modify}
use latticeag_gateway.Exec.Bind.{after_ok}
use latticeag_gateway.Sync.{
  Stream, OutboxState, OutboxItem, in_flight, retry, blocked, acked, same_state,
  can_outbox_transition, backoff_cap, backoff_cap_ms, smaller,
}
use latticeag_gateway.Sync.Engine.{Engine}
use latticeag_gateway.Sync.Sends.{move_each, change_item, block_all, retry_all, delay_of}
use latticeag_gateway.Sync.Answers.{
  Answer, ack, refused, failed, settle_answer, or_retry, mark_through,
}
use latticeag_gateway.Sync.Moves.{item_key}
use latticeag_gateway.Sync.Settle.{
  distinct, may_move, all_may, moved, RowsMoved, move_each_lem, change-MarksBy, still-MarksBy,
}

abbrev pub is_flying : Option OutboxItem → Bool
is_flying none = false
is_flying (some i) = same_state i.state in_flight

-- Whether the items of the ids are all IN_FLIGHT.
abbrev pub all_flying : Table OutboxItem → List String → Bool
all_flying t [] = true
all_flying t (id ∷ ids) = is_flying (get id t) && all_flying t ids

flying_may :
    (to : OutboxState) (o : Option OutboxItem)
    → can_outbox_transition in_flight to ≡ true
    → is_flying o ≡ true
    → may_move to o ≡ true
flying_may to none can h = absurd (ground arith)
flying_may to (some i) can h = ground (arith, can, h)

all_flying_may :
    (to : OutboxState) (t : Table OutboxItem) (ids : List String)
    → can_outbox_transition in_flight to ≡ true
    → all_flying t ids ≡ true
    → all_may to t ids ≡ true
all_flying_may to t [] can h = refl
all_flying_may to t (id ∷ ids) can h =
    let first : may_move to (get id t) ≡ true =
      flying_may to (get id t) can (&&-left (is_flying (get id t)) (all_flying t ids) h) in
    rw (first, all_flying_may to t ids can (&&-right (is_flying (get id t)) (all_flying t ids) h))
      refl

abbrev same_item : OutboxItem → OutboxItem
same_item i = i

abbrev pub due_item : ℕ → (String → ℕ → ℕ) → Option ℕ → OutboxItem → OutboxItem
due_item now jitter retry_after i = record i {
  next_attempt_ms = now + delay_of jitter retry_after i;
}

-- What an answer is to make of an item.
abbrev pub outcome : ℕ → (String → ℕ → ℕ) → Answer → Option OutboxItem → Option OutboxItem
outcome now jitter (refused code) o = moved same_item blocked o
outcome now jitter (failed retry_after) o = moved (due_item now jitter retry_after) retry o
outcome now jitter (ack false conflicts stored through) o = moved (due_item now jitter none) retry o
outcome now jitter (ack true true stored through) o = moved same_item blocked o
outcome now jitter (ack true false true through) o = moved same_item acked o
outcome now jitter (ack true false false through) o = moved (due_item now jitter none) retry o

module _ (now : ℕ) (jitter : String → ℕ → ℕ) (ids : List String) (e : Engine)
    (keyed : Keyed item_key e.items) (apart : distinct ids ≡ true)
    (flying : all_flying e.items ids ≡ true) where
  retry_all_lem :
      (retry_after : Option ℕ)
      → ((retry_all now jitter retry_after ids e).0 ≡ ok tt)
        × RowsMoved
            (due_item now jitter retry_after)
            retry
            ids
            e.items
            (retry_all now jitter retry_after ids e).1.items
  unfolding retry_all
  retry_all_lem retry_after =
      let f : OutboxItem → OutboxItem = due_item now jitter retry_after in
      move_each_lem f (λ id. change_item id f)
        (change-MarksBy f (λ id. change_item id f) (λ i. refl) (λ i. refl) (λ id e. refl)) retry ids
        e keyed apart (all_flying_may retry e.items ids refl flying)

  block_all_lem :
      (code : ErrorCode)
      → ((block_all code ids e).0 ≡ ok tt)
        × RowsMoved same_item blocked ids e.items (block_all code ids e).1.items
  unfolding block_all
  block_all_lem code =
      move_each_lem same_item (λ id e. record e { blocked_code = put id code e.blocked_code })
        (still-MarksBy (λ id e. record e { blocked_code = put id code e.blocked_code })
          (λ id e. refl))
        blocked ids e keyed apart (all_flying_may blocked e.items ids refl flying)

  or_retry_lem :
      (m : Exec Engine (Unit {0})) (f : OutboxItem → OutboxItem) (to : OutboxState)
      → ((m e).0 ≡ ok tt) × RowsMoved f to ids e.items (m e).1.items
      → ((or_retry now jitter ids m e).0 ≡ ok tt)
        × RowsMoved f to ids e.items (or_retry now jitter ids m e).1.items
  unfolding or_retry
  or_retry_lem m f to (calm, rows) =
      let after : Result (Unit {0}) × Engine → Result (Unit {0}) × Engine =
        λ o. elim o.0 [ ok u ↦ (ok u, o.1) | err x ↦ retry_all now jitter none ids o.1 ] in
      let is : or_retry now jitter ids m e ≡ (ok tt, (m e).1) =
        ap after (ap (λ r. (r, (m e).1)) calm) in
      rw is (refl, rows)

  acks_lem :
      (s : Stream) (through : String)
      → let m : Exec Engine (Unit {0}) =
          move_each (λ id e. e) acked ids >> modify (mark_through s through) in
        ((m e).0 ≡ ok tt) × RowsMoved same_item acked ids e.items (m e).1.items
  acks_lem s through =
      let (calm, rows) =
        move_each_lem same_item (λ id e. e) (still-MarksBy (λ id e. e) (λ id e. refl)) acked ids e
          keyed apart (all_flying_may acked e.items ids refl flying) in
      let e' : Engine = (move_each (λ id e. e) acked ids e).1 in
      rw
        (after_ok (move_each (λ id e. e) acked ids) (modify (mark_through s through)) e e'
          (ap (λ r. (r, e')) calm))
        (refl, rows)

  -- Let the items of a batch be IN_FLIGHT, each once. Then the answer of the sink is taken without
  -- a throw, each item of the batch gets the state that the answer asks for, and no other item changes.
  pub settle_exact :
      (s : Stream) (a : Answer)
      → ((settle_answer now jitter s ids a e).0 ≡ ok tt)
        × ((k : String)
            → get k (settle_answer now jitter s ids a e).1.items
              ≡ (if includes ids k then outcome now jitter a (get k e.items) else get k e.items))
  unfolding settle_answer
  settle_exact s (refused code) = block_all_lem code
  settle_exact s (failed retry_after) = retry_all_lem retry_after
  settle_exact s (ack false conflicts stored through) = retry_all_lem none
  settle_exact s (ack true true stored through) =
      or_retry_lem (block_all object_conflict ids) same_item blocked (block_all_lem object_conflict)
  settle_exact s (ack true false true through) =
      or_retry_lem (move_each (λ id e. e) acked ids >> modify (mark_through s through)) same_item
        acked (acks_lem s through)
  settle_exact s (ack true false false through) =
      or_retry_lem (retry_all now jitter none ids) (due_item now jitter none) retry
        (retry_all_lem none)

delay_bounded :
    (jitter : String → ℕ → ℕ) (retry_after : ℕ) (i : OutboxItem)
    → ((id : String) (cap : ℕ) → jitter id cap ≤ cap)
    → (delay_of jitter (some retry_after) i ≤ backoff_cap_ms)
      × (smaller retry_after backoff_cap_ms ≤ delay_of jitter (some retry_after) i)
unfolding backoff_cap
delay_bounded jitter retry_after i fair =
    let h = fair i.id (backoff_cap (i.attempts - 1)) in ground (arith, h)

-- Let the items of a batch be IN_FLIGHT, each once, and the samples stay in their range. After an error
-- that carries a Retry-After each of them is in RETRY, due at that delay or later, where a delay above
-- 300 seconds counts as 300, and at 300 seconds at the latest.
pub retry_bounded :
    (now : ℕ) (jitter : String → ℕ → ℕ) (ids : List String) (s : Stream) (retry_after : ℕ)
    (e : Engine) (k : String) (i : OutboxItem)
    → Keyed item_key e.items
    → distinct ids ≡ true
    → all_flying e.items ids ≡ true
    → ((id : String) (cap : ℕ) → jitter id cap ≤ cap)
    → includes ids k ≡ true
    → get k e.items ≡ some i
    → (i' : OutboxItem) × (get k
          (settle_answer now jitter s ids (failed (some retry_after)) e).1.items
        ≡ some i')
      × (i'.state ≡ retry)
      × (now + smaller retry_after backoff_cap_ms ≤ i'.next_attempt_ms)
      × (i'.next_attempt_ms ≤ now + backoff_cap_ms)
retry_bounded now jitter ids s retry_after e k i keyed apart flying fair has found =
    let (calm, rows) =
      settle_exact now jitter ids e keyed apart flying s (failed (some retry_after)) in
    let (high, low) = delay_bounded jitter retry_after i fair in
    (
      record (due_item now jitter (some retry_after) i) { state = retry },
      rows k ∙ rw (has, found) refl,
      refl,
      omega (arith, low),
      omega (arith, high),
    )
