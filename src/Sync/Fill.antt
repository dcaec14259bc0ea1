-- ===== src/Sync/Fill.antt =====
-- packages/core/src/v2/sync/outbox.ts: the limits of a new batch of `nextBatchMembers`.
use latticeag_gateway.Base.{
  ℕ, zero, suc, ◌+◌, ◌≤◌, ◌<◌, String, true, false, ◌≡◌, inl, inr, ◌⊎◌, refl, ap, filter, Option,
  none, some, List, [], ◌∷◌, arith, Bool-cases, leb, length, take,
}
use latticeag_gateway.Base.Table.{Table}
use latticeag_gateway.Sync.{Stream, OutboxItem, batch_events, batch_bytes}
use latticeag_gateway.Sync.Engine.{Engine}
use latticeag_gateway.Sync.Sends.{ready_items, fill, next_batch_members}
use latticeag_gateway.Sync.Batches.{first_batch, ids_of, in_batch, next_batch_members_lem}

abbrev pub bytes_of : List OutboxItem → ℕ
bytes_of [] = 0
bytes_of (i ∷ is) = i.payload.bytes + bytes_of is

-- A new batch is a prefix of the items; with more than one item it stays below the limit of bytes.
pub record Filled (ready : List OutboxItem) (ids : List String) : Type 0 where
  pub size : ℕ
  pub members : ids ≡ ids_of (take size ready)
  pub events : size ≤ length ready
  pub bytes : (size ≤ 1) ⊎ (bytes_of (take size ready) < batch_bytes)
  -- No batch stops early.
  pub stops : (size ≡ length ready) ⊎ (batch_bytes ≤ bytes_of (take (suc size) ready))

-- The same behind the first item, with the bytes before.
record Filling (bytes : ℕ) (ready : List OutboxItem) (ids : List String) : Type 0 where
  size : ℕ
  members : ids ≡ ids_of (take size ready)
  events : size ≤ length ready
  under : (size ≡ 0) ⊎ (bytes + bytes_of (take size ready) < batch_bytes)
  stops : (size ≡ length ready) ⊎ (batch_bytes ≤ bytes + bytes_of (take (suc size) ready))

fill-Filling : (l : List OutboxItem) (bytes : ℕ) → Filling bytes l (fill true bytes l)
unfolding fill
fill-Filling [] bytes = record {
  size = 0;
  members = refl;
  events = omega arith;
  under = inl refl;
  stops = inl refl;
}
fill-Filling (i ∷ is) bytes = elim (Bool-cases (leb batch_bytes (bytes + i.payload.bytes))) [
  | inl full ↦
      rw (fill, full)
        (record {
          size = 0;
          members = refl;
          events = omega arith;
          under = inl refl;
          stops = inr (ground (arith, full));
        })
  | inr room ↦
      let k = fill-Filling is (bytes + i.payload.bytes) in
      rw (fill, room)
        (record {
          size = suc k.size;
          members = ap (λ l. i.id ∷ l) k.members;
          events = omega (arith, k.events);
          under = inr (elim k.under [
            | inl empty ↦ rw empty (ground (arith, room))
            | inr below ↦ omega (arith, below)
          ]);
          stops = elim k.stops [
            | inl whole ↦ inl (ap (λ n. suc n) whole)
            | inr over ↦ inr (omega (arith, over))
          ];
        })
]

pub fill-Filled : (l : List OutboxItem) → Filled l (fill false 0 l)
unfolding fill
fill-Filled [] = record {
  size = 0;
  members = refl;
  events = omega arith;
  bytes = inl (omega arith);
  stops = inl refl;
}
fill-Filled (i ∷ is) =
    let k = fill-Filling is (0 + i.payload.bytes) in
    record {
      size = suc k.size;
      members = ap (λ l. i.id ∷ l) k.members;
      events = omega (arith, k.events);
      bytes = elim k.under [
        | inl empty ↦ inl (omega (arith, empty))
        | inr below ↦ inr (omega (arith, below))
      ];
      stops = elim k.stops [
        | inl whole ↦ inl (ap (λ n. suc n) whole)
        | inr over ↦ inr (omega (arith, over))
      ];
    }

length_ids : (l : List OutboxItem) → length (ids_of l) ≡ length l
length_ids [] = refl
length_ids (i ∷ is) = ap (λ n. suc n) (length_ids is)

length-take_le {ℓ} : {A : Type ℓ} (n : ℕ) (l : List A) → length (take n l) ≤ n
length-take_le zero l = omega arith
length-take_le (suc n) [] = omega arith
length-take_le (suc n) (x ∷ xs) = omega (arith, length-take_le n xs)

pub length-Filled :
    (l : List OutboxItem) (ids : List String) (n : ℕ) → length l ≤ n → Filled l ids → length ids ≤ n
length-Filled l ids n short k =
    rw (k.members, length_ids (take k.size l))
      (omega (arith, length-take_le k.size l, k.events, short))

-- When no ready item was sent before, the batch is a longest prefix of the first 1000 of them whose
-- payloads stay below 8 MiB, or a single item.
pub next_batch_members-Filled :
    (e : Engine) (s : Stream) (now : ℕ)
    → first_batch e.item_batch (ready_items e s now) ≡ none
    → Filled (take batch_events (ready_items e s now)) (next_batch_members e s now)
      × (length (next_batch_members e s now) ≤ batch_events)
next_batch_members-Filled e s now fresh =
    let ready : List OutboxItem = take batch_events (ready_items e s now) in
    let filled : Filled ready (next_batch_members e s now) =
      rw (next_batch_members_lem e s now, fresh) (fill-Filled ready) in
    (
      filled,
      length-Filled ready (next_batch_members e s now) batch_events
          (length-take_le batch_events (ready_items e s now)) filled,
    )

-- What a batch of a stream is, from its ready items and the first recorded batch among them: those of its
-- items, in their order, that were last sent in that batch, or, where none was sent before, a longest prefix
-- of the first 1000 of them whose payloads stay below 8 MiB, or a single item.
abbrev pub IsBatch : Table String → List OutboxItem → List String → Option String → Type 0
IsBatch prior ready ids none = Filled (take batch_events ready) ids × (length ids ≤ batch_events)
IsBatch prior ready ids (some h) = ids ≡ ids_of (filter (in_batch prior h) ready)
