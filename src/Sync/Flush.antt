-- ===== src/Sync/Flush.antt =====
-- packages/core/src/v2/sync/outbox.ts: what the result of `flush` says of the items that it captured.
use latticeag_gateway.Base.{
  ◌+◌, String, Bool, true, not, ◌≡◌, inl, inr, refl, ap, sym, ◌∙◌, some, List, [], ◌∷◌, map, arith,
  eq_refl, Bool-cases, ◌=ₛ◌, length, any, filter, includes,
}
use latticeag_gateway.Base.Table.{Table, get, values, get-Keyed}
use latticeag_gateway.Sync.{Stream, OutboxItem, acked, blocked, same_state, same_stream}
use latticeag_gateway.Sync.Engine.{Engine}
use latticeag_gateway.Sync.Sends.{is_empty}
use latticeag_gateway.Sync.Events.{EnginePorts, Event, run}
use latticeag_gateway.Sync.Moves.{item_key, state-acked}
use latticeag_gateway.Sync.Runs.{run-Runs}
use latticeag_gateway.Sync.Safety.{IsIdle, reached-Slots, item_later}
use latticeag_gateway.Sync.Gate.{all_settled}
use latticeag_gateway.Sync.Status.{flush_result, captured, items_of, is_open}

values-get :
    (p : OutboxItem → Bool) (t : Table OutboxItem) (k : String) (i : OutboxItem)
    → get k t ≡ some i
    → p i ≡ true
    → includes (map (λ i. i.id) (filter p (values t))) i.id ≡ true
unfolding get values
values-get p [] k i found h = absurd (ground arith)
values-get p ((j, v) ∷ t) k i found h = elim (Bool-cases (j =ₛ k)) [
  | inl same ↦ let e : v ≡ i = grind (arith, found, same) in rw (e, h, eq_refl i.id) refl
  | inr differs ↦
      let rest = values-get p t k i (ground (arith, found, differs)) h in
      elim (Bool-cases (p v)) [
        | inl is_in ↦ rw is_in (ground (arith, rest))
        | inr out ↦ rw out rest
      ]
]

-- The two counts of the result are of all that is not ACKED.
counts_zero :
    (l : List OutboxItem)
    → length (filter (λ i. not (same_state i.state blocked)) l)
        + length (filter (λ i. same_state i.state blocked) l)
      ≡ length l
counts_zero [] = omega arith
counts_zero (i ∷ is) = ground (arith, counts_zero is)

length_zero {ℓ} : {A : Type ℓ} (l : List A) → length l ≡ 0 → is_empty l ≡ true
length_zero [] h = refl
length_zero (x ∷ xs) h = absurd (omega arith)

module _ (p : EnginePorts) (ys : List Event) (e : Engine) (idle : IsIdle e) (xs : List Event)
    (streams : List Stream) where
  -- Let the engine start over a store with no send under way. In any state that it then comes to, also one
  -- with sends under way, let `flush` capture the items of its streams, and let any events happen. If its
  -- result then counts no pending and no blocked item, every item captured was ACKED, with its payload.
  pub flush_drains :
      (id : String) (i : OutboxItem)
      → get id (run p ys e).items ≡ some i
      → any (same_stream i.stream) streams ≡ true
      → (flush_result (captured (run p ys e) streams) (run p xs (run p ys e))).pending_count ≡ 0
      → (flush_result (captured (run p ys e) streams) (run p xs (run p ys e))).blocked_count ≡ 0
      → (i' : OutboxItem) × (get id (run p xs (run p ys e)).items ≡ some i')
        × (i'.state ≡ acked)
        × (i'.payload ≡ i.payload)
  unfolding flush_result captured
  flush_drains id i found scope no_pending no_blocked =
      let e' : Engine = run p xs (run p ys e) in
      let slots = reached-Slots p ys e idle in
      let ids : List String = captured (run p ys e) streams in
      let rest : List OutboxItem = filter is_open (items_of e'.items ids) in
      let empty : is_empty rest ≡ true =
        length_zero rest (omega (arith, counts_zero rest, no_pending, no_blocked)) in
      let own : i.id ≡ id = get-Keyed item_key id (run p ys e).items i slots.keyed found in
      let has : includes ids id ≡ true =
        ap (includes ids) (sym own)
        ∙ values-get (λ i. any (same_stream i.stream) streams) (run p ys e).items id i found
            scope in
      let (i', found', later) =
        item_later (run p ys e) e' id i (run-Runs p xs (run p ys e) slots) found in
      (
        i',
        found',
        state-acked i'.state (all_settled e'.items ids id i' has found' empty),
        ap (λ x. x.payload) later.binding,
      )
