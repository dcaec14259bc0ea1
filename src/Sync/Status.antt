-- ===== src/Sync/Status.antt =====
-- packages/core/src/v2/sync/outbox.ts: `counts`, `failOnSyncStatus` and the turns of `flush`.
use latticeag_gateway.Base.{
  ℕ, ◌+◌, ◌-◌, String, Bool, not, ◌&&◌, ◌||◌, Option, none, some, List, [], ◌∷◌, map, leb,
  if◌then◌else◌, length, any, filter,
}
use latticeag_gateway.Base.Table.{Table, get, values}
use latticeag_gateway.Sync.{
  Stream, same_stream, OutboxState, in_flight, blocked, acked, same_state, OutboxItem, smaller,
}
use latticeag_gateway.Sync.Engine.{Engine, is_paused, or_nil}
use latticeag_gateway.Sync.Sends.{is_empty}

pub record Counts : Type 0 where
  pub waiting : ℕ
  pub flying : ℕ
  pub stuck : ℕ
  pub done : ℕ

-- The turn of the loop for an item of the stream.
abbrev pub count_state : OutboxState → Counts → Counts
count_state in_flight c = record c { flying = c.flying + 1 }
count_state blocked c = record c { stuck = c.stuck + 1 }
count_state acked c = record c { done = c.done + 1 }
count_state _ c = record c { waiting = c.waiting + 1 }

unfoldable pub count_items : Stream → List OutboxItem → Counts → Counts
count_items s [] c = c
count_items s (i ∷ is) c =
    count_items s is (if same_stream i.stream s then count_state i.state c else c)

unfoldable pub counts : Engine → Stream → Counts
unfolding count_items
counts e s =
    count_items s (values e.items) (record { waiting = 0; flying = 0; stuck = 0; done = 0 })

abbrev pub cons_found : Option OutboxItem → List OutboxItem → List OutboxItem
cons_found none is = is
cons_found (some i) is = i ∷ is

-- `ids.map((id) => store.get(id)).filter((item) => item !== undefined)`
unfoldable pub items_of : Table OutboxItem → List String → List OutboxItem
items_of t [] = []
items_of t (id ∷ ids) = cons_found (get id t) (items_of t ids)

abbrev pub is_open : OutboxItem → Bool
is_open i = not (same_state i.state acked)

-- The items that a run admitted; without a run all.
unfoldable pub run_ids : Engine → Option String → List String
run_ids e none = map (λ i. i.id) (values e.items)
run_ids e (some run) = or_nil (get run e.run_items)

pub record SyncRunStatus : Type 0 where
  pub empty : Bool
  pub unknown : Bool

unfoldable pub fail_on_sync_status : Engine → Option String → SyncRunStatus
unfolding items_of run_ids
fail_on_sync_status e run =
    let items : List OutboxItem = items_of e.items (run_ids e run) in
    let outstanding : List OutboxItem = filter is_open items in
    let unknown : Bool =
      not e.daemon_known && not (is_empty items)
      || any (λ i. same_state i.state in_flight) outstanding in
    record { empty = is_empty outstanding && not unknown; unknown = unknown }

-- The items that `flush` captures: those of its streams.
unfoldable pub captured : Engine → List Stream → List String
captured e streams =
    map (λ i. i.id) (filter (λ i. any (same_stream i.stream) streams) (values e.items))

-- What a turn of the loop of `flush` does behind its pump.
pub data Turn : Type 0 where
  stops races : Turn
  sleeps : ℕ → Turn

abbrev pub earliest : ℕ → List OutboxItem → ℕ
earliest m [] = m
earliest m (i ∷ is) = earliest (smaller m i.next_attempt_ms) is

abbrev pub progressing : Engine → List OutboxItem → List OutboxItem
progressing e items =
    filter (λ i. not (same_state i.state blocked) && not (is_paused e i.stream)) items

-- `later` is the clock at the sleep, `now` that at the test of the deadline; where no item waits,
-- Math.min of the deadline alone.
unfoldable pub flush_turn : ℕ → ℕ → ℕ → List String → Engine → Turn
unfolding items_of
flush_turn deadline now later ids e =
    let outstanding : List OutboxItem = filter is_open (items_of e.items ids) in
    let may : List OutboxItem = progressing e outstanding in
    let wait : List OutboxItem =
      filter (λ i. not (any (same_stream i.stream) e.stream_in_flight)) may in
    if is_empty outstanding
    then stops
    else if leb deadline now
    then stops
    else if is_empty may && is_empty e.pending_sends
    then stops
    else if not (is_empty e.pending_sends)
    then races
    else sleeps (earliest deadline wait - later)

-- The cut of a stream in the result: that of the last captured item of it that is ACKED.
unfoldable pub last_cut : Stream → List OutboxItem → Option String → Option String
last_cut s [] cut = cut
last_cut s (i ∷ is) cut =
    last_cut s is
      (if same_stream i.stream s && same_state i.state acked then some i.through else cut)

abbrev pub or_mark : Option String → Option String → String
or_mark (some cut) mark = cut
or_mark none (some mark) = mark
or_mark none none = "0"

pub record FlushResult : Type 0 where
  pub through : Stream → String
  pub pending_count : ℕ
  pub blocked_count : ℕ

unfoldable pub flush_result : List String → Engine → FlushResult
unfolding items_of last_cut
flush_result ids e =
    let items : List OutboxItem = items_of e.items ids in
    let outstanding : List OutboxItem = filter is_open items in
    record {
      through = λ s. or_mark (last_cut s items none) (e.through_marks s);
      pending_count = length (filter (λ i. not (same_state i.state blocked)) outstanding);
      blocked_count = length (filter (λ i. same_state i.state blocked) outstanding);
    }
