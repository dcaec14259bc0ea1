-- ===== src/Sync/Schedule.antt =====
-- packages/core/src/v2/sync/outbox.ts: `pump`, the answers of the sinks and every run of events, on the
-- slots and the items.
use latticeag_gateway.Base.{
  find-holds, ℕ, zero, suc, ◌+◌, ◌<◌, String, Bool, true, false, ◌≡◌, inl, inr, refl, Option, none,
  some, List, [], ◌∷◌, arith, Bool-cases, Option-cases, ltb, length,
}
use latticeag_gateway.Base.Table.{Keyed, put}
use latticeag_gateway.Protocol.Errors.{cap_adapter_unavailable}
use latticeag_gateway.Exec.{Exec}
use latticeag_gateway.Sync.{Stream, OutboxItem, in_flight, global_senders}
use latticeag_gateway.Sync.Engine.{OutboxBatch, preparing, settling, Engine}
use latticeag_gateway.Sync.Sends.{
  SendPorts, block_all, move_each, journal, dispatch, run_send, start_send, pump, pick_stream,
  may_pick, live_items, hand_over, send_items, phase_after, no_batch, outbox_batch,
  next_batch_members, stream_priority,
}
use latticeag_gateway.Sync.Moves.{
  item_key, ItemLater-refl, ItemsLater, Admits, items_stay, items_then, Kept, Kept-refl,
  move_each-Kept, block_all-Kept, change_item-Kept,
}
use latticeag_gateway.Sync.Slots.{sends_of, Slots, Added, add_send-Added, Kept-Slots, start-Slots}

journal-Kept :
    (batch : OutboxBatch) (stage : Option String) (id : String) (e : Engine)
    → Keyed item_key e.items
    → Kept e (journal batch stage id e)
journal-Kept batch stage id e keyed =
    let h =
      change_item-Kept (λ i. record i { remote_stage = stage; attempts = i.attempts + 1 })
        (λ i. record {
          binding = refl;
          attempts = omega arith;
          settled = (ItemLater-refl i).settled;
        })
        id (record e { item_batch = put id batch.hash e.item_batch }) keyed in
    record {
      later = h.later;
      sends = h.sends;
      count = h.count;
      streams = h.streams;
      admits = h.admits;
    }

pub dispatch-Added :
    (s : Stream) (members : List String) (batch : OutboxBatch) (stage : Option String) (e : Engine)
    → Keyed item_key e.items
    → Added s e (dispatch s members batch stage e)
unfolding dispatch
dispatch-Added s members batch stage e keyed =
    let e' : Engine = record e { batch_members = put batch.hash members e.batch_members } in
    let moves : Exec Engine (Unit {0}) = move_each (journal batch stage) in_flight batch.items in
    let h =
      move_each-Kept (journal batch stage) (journal-Kept batch stage) in_flight batch.items e'
        keyed in
    add_send-Added s members (record batch { stage = stage }) (phase_after (moves e').0) e
      (moves e').1
      (record {
        later = h.later;
        sends = h.sends;
        count = h.count;
        streams = h.streams;
        admits = h.admits;
      })

hand_over-Added :
    (p : SendPorts) (s : Stream) (members : List String) (batch : OutboxBatch) (sink : Option Bool)
    (e : Engine)
    → Keyed item_key e.items
    → Added s e (hand_over p s members batch sink e)
unfolding hand_over
hand_over-Added p s members batch none e keyed =
    add_send-Added s members batch settling e (block_all cap_adapter_unavailable batch.items e).1
      (block_all-Kept cap_adapter_unavailable batch.items e keyed)
hand_over-Added p s members batch (some true) e keyed =
    add_send-Added s members batch preparing e e (Kept-refl e keyed)
hand_over-Added p s members batch (some false) e keyed =
    dispatch-Added s members batch batch.stage e keyed

pub send_items-Added :
    (p : SendPorts) (s : Stream) (members : List String) (l : List OutboxItem) (e : Engine)
    → Keyed item_key e.items
    → Added s e (send_items p s members l e)
unfolding send_items
send_items-Added p s members [] e keyed =
    add_send-Added s members (no_batch s) settling e e (Kept-refl e keyed)
send_items-Added p s members (i ∷ is) e keyed =
    let batch : OutboxBatch = outbox_batch p i is in
    hand_over-Added p s members batch (p.sink batch.destination) e keyed

-- What each event keeps: the items go on, and the slots are in order.
pub record Runs (e e' : Engine) : Type 0 where
  pub later : ItemsLater e.items e'.items
  pub slots : Slots e'
  pub admits : Admits e e'

pub Runs-refl : (e : Engine) → Slots e → Runs e e
Runs-refl e k = record { later = items_stay e.items k.keyed; slots = k; admits = λ r id i. i }

pub Runs-trans : (a b c : Engine) → Runs a b → Runs b c → Runs a c
Runs-trans a b c h k = record {
  later = items_then a.items b.items c.items h.later k.later;
  slots = k.slots;
  admits = λ r id i. k.admits r id (h.admits r id i);
}

pub Kept-Runs : (e e' : Engine) → Slots e → Kept e e' → Runs e e'
Kept-Runs e e' k h = record { later = h.later; slots = Kept-Slots e e' h k; admits = h.admits }

pub start_send-Runs :
    (p : SendPorts) (s : Stream) (members : List String) (e : Engine)
    → Slots e
    → sends_of s e.pending_sends ≡ 0
    → length e.pending_sends < 2
    → Runs e (start_send p s members e)
unfolding start_send run_send
start_send-Runs p s [] e k free room = Runs-refl e k
start_send-Runs p s (id ∷ ids) e k free room =
    let opened : Engine = record e {
      in_flight_sends = e.in_flight_sends + 1;
      stream_in_flight = s ∷ e.stream_in_flight;
    } in
    let h = send_items-Added p s (id ∷ ids) (live_items e.items (id ∷ ids)) opened k.keyed in
    record {
      later = h.later;
      slots = start-Slots s e (run_send p s (id ∷ ids) opened) k free room h;
      admits = h.admits;
    }

-- A stream that is picked has no send.
pub pick_stream-free :
    (e : Engine) (now : ℕ) (scope : Option (List Stream)) (s : Stream)
    → Slots e
    → pick_stream e now scope ≡ some s
    → sends_of s e.pending_sends ≡ 0
unfolding pick_stream
pick_stream-free e now scope s k picked =
    ground (arith, k.streams s, find-holds (may_pick e now scope) stream_priority s picked)

pub pump-Runs :
    (fuel : ℕ) (p : SendPorts) (now : ℕ) (scope : Option (List Stream)) (e : Engine)
    → Slots e
    → Runs e (pump fuel p now scope e)
unfolding pump
pump-Runs zero p now scope e k = Runs-refl e k
pump-Runs (suc fuel) p now scope e k = elim (Bool-cases (ltb e.in_flight_sends global_senders)) [
  | inr full ↦ rw (pump, full) (Runs-refl e k)
  | inl room ↦
      rw (pump, room)
        (elim (Option-cases (pick_stream e now scope)) [
          | inl nothing ↦ rw nothing (Runs-refl e k)
          | inr (s, picked) ↦
              let members : List String = next_batch_members e s now in
              let h =
                start_send-Runs p s members e k (pick_stream-free e now scope s k picked)
                  (ground (arith, k.count, room)) in
              rw picked (
                Runs-trans e (start_send p s members e)
                  (pump fuel p now scope (start_send p s members e)) h
                  (pump-Runs fuel p now scope (start_send p s members e) h.slots))
        ])
]
