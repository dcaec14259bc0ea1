-- ===== src/Sync/Tests.antt =====
-- packages/core/src/v2/sync/outbox.ts: runs of the outbox at concrete inputs.
use latticeag_gateway.Base.{
  ℕ, ◌+◌, ◌≤◌, String, true, false, ◌≡◌, ◌⊎◌, refl, none, some, List, [], ◌∷◌, ◌++◌, arith,
  if◌then◌else◌, ltb, length, includes, any,
}
use latticeag_gateway.Base.Table.{Table, Keyed, get, put, values}
use latticeag_gateway.Exec.{ok}
use latticeag_gateway.Approvals.{NativeRef}
use latticeag_gateway.Sync.{
  same_stream, runs, OutboxState, pending, in_flight, retry, acked, OutboxItem, Consent, Payload,
  global_senders, smaller, backoff_cap_ms,
}
use latticeag_gateway.Sync.Engine.{
  Engine, EnqueueArgs, enqueue, enqueue_under, store_item, transition,
}
use latticeag_gateway.Sync.Sends.{
  next_batch_members, ready_items, pick_stream, pump, by_batch, group_item, members_of, fill,
  start_send, run_send, send_items, hand_over, live_items, dispatch, move_each, change_item,
  retry_all, block_all,
}
use latticeag_gateway.Sync.Answers.{
  ack, failed, settle_answer, settled, answered, or_retry, without,
}
use latticeag_gateway.Sync.Events.{EnginePorts, Event, enqueues, pumps, answers, settles, run, step}
use latticeag_gateway.Sync.Moves.{item_key, ItemLater}
use latticeag_gateway.Sync.Slots.{sends_of}
use latticeag_gateway.Sync.Safety.{IsIdle, sends_bounded, items_kept, pump_done}
use latticeag_gateway.Sync.Outcomes.{outcome, all_flying, settle_exact, retry_bounded}
use latticeag_gateway.Sync.Status.{fail_on_sync_status, flush_result, captured, items_of, run_ids}
use latticeag_gateway.Sync.Gate.{admitted_until_acked}
use latticeag_gateway.Sync.Flush.{flush_drains}

abbrev ref : NativeRef
ref = record {
  profile = "cis";
  namespace = "runs";
  object_id = "o1";
  commitment = none;
  raw_sha256 = "00";
  bytes = "2";
}

abbrev consent : Consent
consent = record {
  enabled = true;
  paused = false;
  cohort = "c";
  cut_from = "0";
  destination = "cloud";
  revision = "1";
  policy = "p";
}

abbrev small : Payload
small = record { digest = "dd"; bytes = 7 }

abbrev item : String → OutboxState → OutboxItem
item id state = record {
  id = id;
  destination = "cloud";
  cohort = "c";
  stream = runs;
  source = ref;
  payload = small;
  consent_revision = "1";
  redaction_sha256 = "p";
  cut_from = "0";
  through = "9";
  state = state;
  attempts = 1;
  next_attempt_ms = 0;
  remote_stage = none;
}

abbrev engine : Table OutboxItem → Engine
engine items = record {
  items = items;
  consents = λ s. some consent;
  paused = λ s. false;
  through_marks = λ s. none;
  daemon_known = true;
  item_batch = [];
  batch_members = [];
  run_items = [];
  in_flight_sends = 0;
  stream_in_flight = [];
  pending_sends = [];
  blocked_code = [];
}

abbrev ports : EnginePorts
ports = record {
  send_ports = record { batch_hash = λ is. "hash"; sink = λ d. some false };
  item_id = λ c s r. r.object_id;
}

abbrev args : EnqueueArgs
args = record {
  stream = runs;
  source = ref;
  through = "9";
  run = some "r";
  projected = ok small;
  commit = none;
}

abbrev no_jitter : String → ℕ → ℕ
no_jitter id cap = cap

-- A send that is stored, from the enqueue on.
abbrev stored : List Event
stored = pumps 5 none ∷ answers 6 no_jitter runs (ack true false true "9") ∷ settles runs ∷ []

abbrev two : Engine
two = engine (("a", item "a" pending) ∷ ("b", item "b" pending) ∷ [])

two-IsIdle : IsIdle two
unfolding get
two-IsIdle = ((refl, refl, (refl, refl, tt)), refl, refl, refl)

abbrev flying : Engine
flying = engine (("a", item "a" in_flight) ∷ ("b", item "b" pending) ∷ [])

fair : (id : String) (cap : ℕ) → no_jitter id cap ≤ cap
fair id cap = omega arith

in_scope_example : any (same_stream runs) (runs ∷ []) ≡ true
unfolding same_stream
in_scope_example = refl

-- A send of the two items is under way.
abbrev started : List Event
started = pumps 5 none ∷ []

abbrev acks : List Event
acks = answers 6 no_jitter runs (ack true false true "9") ∷ settles runs ∷ []

-- The send under way ends, and then the new item is sent.
abbrev both : List Event
both = acks ++ stored

under_way : (run ports started two).in_flight_sends ≡ 1
unfolding run step pump pick_stream ready_items next_batch_members by_batch group_item members_of
    fill start_send run_send send_items hand_over live_items dispatch move_each change_item
    transition retry_all block_all get put values same_stream
under_way = refl

none_under_way : get "o1" (run ports started two).items ≡ none
unfolding run step pump pick_stream ready_items next_batch_members by_batch group_item members_of
    fill start_send run_send send_items hand_over live_items dispatch move_each change_item
    transition retry_all block_all get put values same_stream
none_under_way = refl

consents_under_way : (run ports started two).consents runs ≡ some consent
unfolding run step pump pick_stream ready_items next_batch_members by_batch group_item members_of
    fill start_send run_send send_items hand_over live_items dispatch move_each change_item
    transition retry_all block_all get put values same_stream
consents_under_way = refl

a_under_way :
    get "a" (run ports started two).items ≡ some (record (item "a" in_flight) { attempts = 2 })
unfolding run step pump pick_stream ready_items next_batch_members by_batch group_item members_of
    fill start_send run_send send_items hand_over live_items dispatch move_each change_item
    transition retry_all block_all get put values same_stream
a_under_way = refl

both_settled :
    (fail_on_sync_status
      (run ports (enqueues 4 args ∷ both) (run ports started two))
      (some "r")).empty
    ≡ true
unfolding fail_on_sync_status items_of run_ids run step pump pick_stream ready_items
    next_batch_members by_batch group_item members_of fill start_send run_send send_items hand_over
    live_items dispatch move_each change_item transition settled answered settle_answer or_retry
    retry_all block_all without enqueue enqueue_under store_item get put values same_stream
both_settled = refl

admitted_until_acked_example :
    (i : OutboxItem) × (get "o1" (run ports (enqueues 4 args ∷ both) (run ports started two)).items
      ≡ some i)
    × (i.state ≡ acked)
    × (i.payload ≡ small)
admitted_until_acked_example =
    admitted_until_acked ports started two two-IsIdle 4 args consent small "r" consents_under_way
      refl refl (omega arith) none_under_way refl refl both both_settled

sends_bounded_example :
    ((run ports (pumps 5 none ∷ []) two).in_flight_sends ≤ global_senders)
    × ((run ports (pumps 5 none ∷ []) two).in_flight_sends
        ≡ length (run ports (pumps 5 none ∷ []) two).pending_sends)
    × (sends_of runs (run ports (pumps 5 none ∷ []) two).pending_sends ≤ 1)
sends_bounded_example = sends_bounded ports (pumps 5 none ∷ []) two two-IsIdle runs

items_kept_example :
    (i : OutboxItem) × (get "a" (run ports acks (run ports started two)).items ≡ some i)
    × ItemLater (record (item "a" in_flight) { attempts = 2 }) i
items_kept_example =
    items_kept ports started two two-IsIdle acks "a" (record (item "a" in_flight) { attempts = 2 })
      a_under_way

pump_done_example :
    (ltb
        (pump global_senders ports.send_ports 5 none (run ports stored two)).in_flight_sends
        global_senders
      ≡ false)
    ⊎ (pick_stream (pump global_senders ports.send_ports 5 none (run ports stored two)) 5 none
        ≡ none)
pump_done_example = pump_done ports stored two two-IsIdle 5 none

flying-Keyed : Keyed item_key flying.items
unfolding get
flying-Keyed = (refl, refl, (refl, refl, tt))

flying_lookup : get "a" flying.items ≡ some (item "a" in_flight)
unfolding get
flying_lookup = refl

flying_all : all_flying flying.items ("a" ∷ []) ≡ true
unfolding get
flying_all = refl

settle_exact_example :
    ((settle_answer 6 no_jitter runs ("a" ∷ []) (ack true false true "9") flying).0 ≡ ok tt)
    × ((k : String)
        → get k (settle_answer 6 no_jitter runs ("a" ∷ []) (ack true false true "9") flying).1.items
          ≡ (if includes ("a" ∷ []) k
              then outcome 6 no_jitter (ack true false true "9") (get k flying.items)
              else get k flying.items))
settle_exact_example =
    settle_exact 6 no_jitter ("a" ∷ []) flying flying-Keyed refl flying_all runs
      (ack true false true "9")

retry_bounded_example :
    (i : OutboxItem) × (get "a"
        (settle_answer 6 no_jitter runs ("a" ∷ []) (failed (some 2500)) flying).1.items
      ≡ some i)
    × (i.state ≡ retry)
    × (6 + smaller 2500 backoff_cap_ms ≤ i.next_attempt_ms)
    × (i.next_attempt_ms ≤ 6 + backoff_cap_ms)
retry_bounded_example =
    retry_bounded 6 no_jitter ("a" ∷ []) runs 2500 flying "a" (item "a" in_flight) flying-Keyed refl
      flying_all fair refl flying_lookup

-- Two items of one batch, of which one is due: it goes alone.
abbrev half_due : Engine
half_due =
    record (engine
      (("a", item "a" retry) ∷ ("b", record (item "b" retry) { next_attempt_ms = 9 }) ∷ [])) {
        item_batch = ("a", "hash") ∷ ("b", "hash") ∷ [];
      }

half_due_example : next_batch_members half_due runs 5 ≡ "a" ∷ []
unfolding next_batch_members ready_items by_batch group_item members_of get put values same_stream
half_due_example = refl

nothing_waits :
    (flush_result
      (captured (run ports started two) (runs ∷ []))
      (run ports acks (run ports started two))).pending_count
    ≡ 0
unfolding flush_result captured items_of run step pump pick_stream ready_items next_batch_members
    by_batch group_item members_of fill start_send run_send send_items hand_over live_items dispatch
    move_each change_item transition settled answered settle_answer or_retry retry_all block_all
    without get put values same_stream
nothing_waits = refl

nothing_blocks :
    (flush_result
      (captured (run ports started two) (runs ∷ []))
      (run ports acks (run ports started two))).blocked_count
    ≡ 0
unfolding flush_result captured items_of run step pump pick_stream ready_items next_batch_members
    by_batch group_item members_of fill start_send run_send send_items hand_over live_items dispatch
    move_each change_item transition settled answered settle_answer or_retry retry_all block_all
    without get put values same_stream
nothing_blocks = refl

flush_drains_example :
    (i : OutboxItem) × (get "a" (run ports acks (run ports started two)).items ≡ some i)
    × (i.state ≡ acked)
    × (i.payload ≡ small)
flush_drains_example =
    flush_drains ports started two two-IsIdle acks (runs ∷ []) "a"
      (record (item "a" in_flight) { attempts = 2 }) a_under_way in_scope_example nothing_waits
      nothing_blocks
