-- ===== src/Sync/Safety.antt =====
-- packages/core/src/v2/sync/outbox.ts: what holds of the outbox over every run of events.
use latticeag_gateway.Base.{
  ℕ, ◌≤◌, String, false, ◌≡◌, ◌⊎◌, refl, subst, Option, none, some, List, [], arith, ltb, length,
}
use latticeag_gateway.Base.Table.{Keyed, get}
use latticeag_gateway.Base.Table.Later.{EntryLater}
use latticeag_gateway.Sync.{Stream, OutboxItem, global_senders}
use latticeag_gateway.Sync.Engine.{Engine}
use latticeag_gateway.Sync.Sends.{pump, pick_stream}
use latticeag_gateway.Sync.Events.{EnginePorts, Event, run}
use latticeag_gateway.Sync.Moves.{item_key, ItemLater}
use latticeag_gateway.Sync.Slots.{sends_of, Slots}
use latticeag_gateway.Sync.Schedule.{Runs}
use latticeag_gateway.Sync.Runs.{run-Runs}
use latticeag_gateway.Sync.Pump.{pump_ends}

-- An engine over a store at its start: no send is under way.
abbrev pub IsIdle : Engine → Type 0
IsIdle e =
    Keyed item_key e.items
    × (e.pending_sends ≡ [])
    × (e.stream_in_flight ≡ [])
    × (e.in_flight_sends ≡ 0)

pub IsIdle-Slots : (e : Engine) → IsIdle e → Slots e
unfolding sends_of
IsIdle-Slots e (keyed, sends, streams, count) = record {
  keyed = keyed;
  count = rw (count, sends) refl;
  global = rw sends (omega arith);
  streams = λ t. rw (streams, sends) refl;
  one = λ t. rw sends (omega arith);
}

entry_later :
    (i : OutboxItem) (o : Option OutboxItem)
    → EntryLater ItemLater (some i) o
    → (i' : OutboxItem) × (o ≡ some i') × ItemLater i i'
entry_later i none h = absurd h
entry_later i (some i') h = (i', refl, h)

-- The item of an id, from what holds of all of them.
pub item_later :
    (e e' : Engine) (id : String) (i : OutboxItem)
    → Runs e e'
    → get id e.items ≡ some i
    → (i' : OutboxItem) × (get id e'.items ≡ some i') × ItemLater i i'
item_later e e' id i h found =
    entry_later i (get id e'.items)
      (subst (λ o. EntryLater ItemLater o (get id e'.items)) found (h.later.rows id))

module _ (p : EnginePorts) (xs : List Event) (e : Engine) (idle : IsIdle e) where
  -- Whatever calls, answers of sinks and ends of sends come in whatever order, at most two sends are
  -- under way, at most one of each stream, and the count of the engine is theirs.
  pub sends_bounded :
      (s : Stream)
      → ((run p xs e).in_flight_sends ≤ global_senders)
        × ((run p xs e).in_flight_sends ≡ length (run p xs e).pending_sends)
        × (sends_of s (run p xs e).pending_sends ≤ 1)
  sends_bounded s =
      let k : Slots (run p xs e) = (run-Runs p xs e (IsIdle-Slots e idle)).slots in
      (omega (arith, k.count, k.global), k.count, k.one s)

  -- After any run of events the loop of pump has ended within two turns: both slots are taken, or
  -- no stream has an item that may be sent.
  pub pump_done :
      (now : ℕ) (scope : Option (List Stream))
      → (ltb
            (pump global_senders p.send_ports now scope (run p xs e)).in_flight_sends
            global_senders
          ≡ false)
        ⊎ (pick_stream (pump global_senders p.send_ports now scope (run p xs e)) now scope ≡ none)
  pump_done now scope =
      pump_ends global_senders p.send_ports now scope (run p xs e)
        (run-Runs p xs e (IsIdle-Slots e idle)).slots (omega arith)

module _ (p : EnginePorts) (ys : List Event) (e : Engine) (idle : IsIdle e) where
  -- What every state has that the engine comes to from one without sends.
  pub reached-Slots : Slots (run p ys e)
  reached-Slots = (run-Runs p ys e (IsIdle-Slots e idle)).slots

  -- Let the engine start over a store with no send under way. From any state that it then comes to, also one
  -- with sends under way, and over any further events, an item lives on with its source, payload,
  -- destination, cohort, consent and cut, its attempts never fall, and once it is ACKED it stays so.
  pub items_kept :
      (xs : List Event) (id : String) (i : OutboxItem)
      → get id (run p ys e).items ≡ some i
      → (i' : OutboxItem) × (get id (run p xs (run p ys e)).items ≡ some i') × ItemLater i i'
  items_kept xs id i found =
      let now : Engine = run p ys e in
      item_later now (run p xs now) id i (run-Runs p xs now reached-Slots) found
