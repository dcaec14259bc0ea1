-- ===== src/Sync/Pump.antt =====
-- packages/core/src/v2/sync/outbox.ts: the loop of `pump` ends.
use latticeag_gateway.Base.{
  find-holds, ℕ, zero, suc, ◌+◌, ◌≤◌, String, Bool, true, false, not, ◌≡◌, inl, inr, ◌⊎◌, refl, ap,
  sym, ◌∙◌, Option, none, some, List, [], ◌∷◌, arith, eq_refl, Bool-cases, Option-cases, ltb,
  filter, take,
}
use latticeag_gateway.Base.Table.{Table, get}
use latticeag_gateway.Sync.{Stream, OutboxItem, batch_events, global_senders}
use latticeag_gateway.Sync.Engine.{Engine}
use latticeag_gateway.Sync.Sends.{
  SendPorts, ready_items, is_empty, fill, next_batch_members, start_send, pump, pick_stream,
  may_pick, stream_priority, run_send, live_items,
}
use latticeag_gateway.Sync.Slots.{Slots}
use latticeag_gateway.Sync.Batches.{
  first_batch, in_batch, is_some, or_else, ids_of, wanted_members, next_batch_members_lem,
}
use latticeag_gateway.Sync.Schedule.{pick_stream-free, start_send-Runs, send_items-Added}

abbrev holds_some {ℓ} : {A : Type ℓ} → List A → Bool
holds_some l = not (is_empty l)

batch_holds :
    (prior : Table String) (h : String) (l : List OutboxItem)
    → first_batch prior l ≡ some h
    → holds_some (filter (in_batch prior h) l) ≡ true
batch_holds prior h [] e = absurd (ground arith)
batch_holds prior h (i ∷ is) e = elim (Option-cases (get i.id prior)) [
  | inl fresh ↦
      let rest =
        batch_holds prior h is (ap (λ o. or_else o (first_batch prior is)) (sym fresh) ∙ e) in
      let out : in_batch prior h i ≡ false = ap (is_some h) fresh in rw out rest
  | inr (j, sent) ↦
      let same : some j ≡ some h = ap (λ o. or_else o (first_batch prior is)) (sym sent) ∙ e in
      let is_in : in_batch prior h i ≡ true = ap (is_some h) (sent ∙ same) ∙ eq_refl h in
      rw is_in refl
]

ids_hold : (l : List OutboxItem) → holds_some l ≡ true → holds_some (ids_of l) ≡ true
ids_hold [] e = absurd (ground arith)
ids_hold (i ∷ is) e = refl

fill_holds :
    (l : List OutboxItem)
    → holds_some l ≡ true
    → holds_some (fill false 0 (take batch_events l)) ≡ true
unfolding fill
fill_holds [] e = absurd (ground arith)
fill_holds (i ∷ is) e = refl

wanted_holds :
    (prior : Table String) (l : List OutboxItem) (o : Option String)
    → first_batch prior l ≡ o
    → holds_some l ≡ true
    → holds_some (wanted_members prior l o) ≡ true
wanted_holds prior l none e h = fill_holds l h
wanted_holds prior l (some b) e h = ids_hold (filter (in_batch prior b) l) (batch_holds prior b l e)

picked_holds :
    (e : Engine) (now : ℕ) (scope : Option (List Stream)) (s : Stream)
    → pick_stream e now scope ≡ some s
    → holds_some (next_batch_members e s now) ≡ true
unfolding pick_stream
picked_holds e now scope s picked =
    let may = find-holds (may_pick e now scope) stream_priority s picked in
    rw (next_batch_members_lem e s now) (
      wanted_holds e.item_batch (ready_items e s now)
        (first_batch e.item_batch (ready_items e s now)) refl (ground (arith, may)))

start_send-count :
    (p : SendPorts) (s : Stream) (members : List String) (e : Engine)
    → Slots e
    → holds_some members ≡ true
    → (start_send p s members e).in_flight_sends ≡ e.in_flight_sends + 1
unfolding start_send run_send
start_send-count p s [] e k h = absurd (ground arith)
start_send-count p s (id ∷ ids) e k h =
    let opened : Engine = record e {
      in_flight_sends = e.in_flight_sends + 1;
      stream_in_flight = s ∷ e.stream_in_flight;
    } in
    (send_items-Added p s (id ∷ ids) (live_items e.items (id ∷ ids)) opened k.keyed).count

-- With the fuel that the free slots ask for, the loop ends by its own condition or its `break`.
pub pump_ends :
    (fuel : ℕ) (p : SendPorts) (now : ℕ) (scope : Option (List Stream)) (e : Engine)
    → Slots e
    → global_senders ≤ fuel + e.in_flight_sends
    → (ltb (pump fuel p now scope e).in_flight_sends global_senders ≡ false)
      ⊎ (pick_stream (pump fuel p now scope e) now scope ≡ none)
unfolding pump
pump_ends zero p now scope e k enough = inl (ground (arith, enough))
pump_ends (suc fuel) p now scope e k enough =
    elim (Bool-cases (ltb e.in_flight_sends global_senders)) [
      | inr full ↦ rw (pump, full) (inl full)
      | inl room ↦ elim (Option-cases (pick_stream e now scope)) [
        | inl nothing ↦ rw (pump, room, nothing) (inr nothing)
        | inr (s, picked) ↦
            let members : List String = next_batch_members e s now in
            let h =
              start_send-Runs p s members e k (pick_stream-free e now scope s k picked)
                (ground (arith, k.count, room)) in
            let more = start_send-count p s members e k (picked_holds e now scope s picked) in
            rw (pump, room, picked)
              (pump_ends fuel p now scope (start_send p s members e) h.slots
                (omega (arith, more, enough)))
      ]
    ]
