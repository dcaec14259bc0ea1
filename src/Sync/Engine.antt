-- ===== src/Sync/Engine.antt =====
-- packages/core/src/v2/sync/outbox.ts: the state of the outbox engine, and its calls that run at once.
-- The map of items holds shared objects, so an assignment to an item is a write to the map. What the
-- disclosure of an event gives, hashes and the caller's commit hook come from outside.
use latticeag_gateway.Base.{
  ℕ, String, Bool, true, false, not, ◌||◌, Option, none, some, List, [], ◌∷◌, ◌++◌, ltb, ◌=ₛ◌,
  if◌then◌else◌, includes,
}
use latticeag_gateway.Base.Table.{Table, get, put}
use latticeag_gateway.Protocol.Errors.{
  ErrorCode, RpcError, not_found, state_transition, object_limit, plain, at,
}
use latticeag_gateway.Exec.{
  Result, ok, err, Exec, pure, lift, or_throw, gets, ◌>>=◌, ◌>>◌, throw_if, modify,
}
use latticeag_gateway.Approvals.{NativeRef}
use latticeag_gateway.Sync.{
  Stream, same_stream, OutboxState, pending, blocked, same_state, can_outbox_transition,
  payload_bytes, Payload, OutboxItem, Consent,
}

pub record OutboxBatch : Type 0 where
  pub destination : String
  pub cohort : String
  pub stream : Stream
  pub items : List String
  pub hash : String
  pub through : String
  pub stage : Option String

-- Where a call of `runSend` waits: for `sink.prepare`, for `sink.send`, or for its `finally`.
pub data Phase : Type 0 where
  preparing sending settling : Phase

-- A promise of `runSend`.
pub record Send : Type 0 where
  pub stream : Stream
  pub members : List String
  pub batch : OutboxBatch
  pub phase : Phase

pub record Engine : Type 0 where
  pub items : Table OutboxItem
  pub consents : Stream → Option Consent
  pub paused : Stream → Bool
  pub through_marks : Stream → Option String
  pub daemon_known : Bool
  pub item_batch : Table String
  pub batch_members : Table (List String)
  pub run_items : Table (List String)
  pub in_flight_sends : ℕ
  pub stream_in_flight : List Stream
  pub pending_sends : List Send
  pub blocked_code : Table ErrorCode

-- `paused.has(stream) || consents.get(stream)?.paused === true`
abbrev pub consent_paused : Option Consent → Bool
consent_paused none = false
consent_paused (some c) = c.paused

abbrev pub is_paused : Engine → Stream → Bool
is_paused e s = e.paused s || consent_paused (e.consents s)

abbrev pub assign {ℓ} : {A : Type ℓ} → Stream → A → (Stream → A) → Stream → A
assign s a f t = if same_stream s t then a else f t

-- `setPaused`
unfoldable pub set_paused : Bool → Stream → Engine → Engine
set_paused b s e = record e {
  paused = assign s b e.paused;
  consents = elim (e.consents s) [
    | none ↦ e.consents
    | some c ↦ assign s (some (record c { paused = b })) e.consents
  ];
}

pub record EnqueueArgs : Type 0 where
  pub stream : Stream
  pub source : NativeRef
  pub through : String
  pub run : Option String
  -- what `projectForStream` and `canonicalJson` give
  pub projected : Result Payload
  -- what `commit?.()` throws
  pub commit : Option RpcError

abbrev pub or_nil : Option (List String) → List String
or_nil none = []
or_nil (some l) = l

-- `set.add(id)`
abbrev pub add : List String → String → List String
add ids id = if includes ids id then ids else ids ++ (id ∷ [])

abbrev pub admit : Option String → String → Engine → Engine
admit none id e = e
admit (some run) id e = record e {
  run_items = put run (add (or_nil (get run e.run_items)) id) e.run_items;
}

abbrev pub new_item : ℕ → String → EnqueueArgs → Consent → Payload → OutboxItem
new_item now id a c payload = record {
  id = id;
  destination = c.destination;
  cohort = c.cohort;
  stream = a.stream;
  source = a.source;
  payload = payload;
  consent_revision = c.revision;
  redaction_sha256 = c.policy;
  cut_from = c.cut_from;
  through = a.through;
  state = pending;
  attempts = 0;
  next_attempt_ms = now;
  remote_stage = none;
}

abbrev pub throw_commit : Option RpcError → Exec Engine (Unit {0})
throw_commit none e = (ok tt, e)
throw_commit (some x) e = (err x, e)

abbrev pub enabled_consent : Option Consent → Option Consent
enabled_consent none = none
enabled_consent (some c) = if c.enabled then some c else none

-- `enqueue` with the item that the id has; a throw of the hook leaves nothing behind.
unfoldable pub store_item :
    ℕ
    → EnqueueArgs
    → Consent
    → String
    → Payload
    → Option OutboxItem
    → Exec Engine (Option OutboxItem)
store_item now a c id payload (some i) = pure (some i)
store_item now a c id payload none = do
  throw_commit a.commit
  let item : OutboxItem = new_item now id a c payload
  modify (λ e. admit a.run id (record e { items = put id item e.items }))
  pure (some item)

-- `enqueue` with the enabled consent of the stream.
unfoldable pub enqueue_under :
    (Consent → Stream → NativeRef → String)
    → ℕ
    → EnqueueArgs
    → Option Consent
    → Exec Engine (Option OutboxItem)
unfolding store_item
enqueue_under item_id now a none = pure none
enqueue_under item_id now a (some c) = do
  payload ← lift a.projected
  throw_if (ltb payload_bytes payload.bytes) (at object_limit "payload")
  let id : String = item_id c a.stream a.source
  existing ← gets (λ e. get id e.items)
  store_item now a c id payload existing

-- `item_id` is outboxItemId; the answer is null for a disabled stream.
unfoldable pub enqueue :
    (Consent → Stream → NativeRef → String) → ℕ → EnqueueArgs → Exec Engine (Option OutboxItem)
unfolding enqueue_under
enqueue item_id now a e = enqueue_under item_id now a (enabled_consent (e.consents a.stream)) e

-- The method `transition` on the item of an id; without an item nothing would be written.
abbrev move_item : OutboxState → Option OutboxItem → Exec Engine (Unit {0})
move_item to none = pure tt
move_item to (some i) = do
  throw_if (not (can_outbox_transition i.state to)) (plain state_transition)
  modify (λ e. record e { items = put i.id (record i { state = to }) e.items })

unfoldable pub transition : String → OutboxState → Exec Engine (Unit {0})
transition id to = do row ← gets (λ e. get id e.items); move_item to row

-- `map.delete(k)`
unfoldable pub delete : {V : Type 0} → String → Table V → Table V
delete k [] = []
delete k ((j, v) ∷ t) = if j =ₛ k then t else (j, v) ∷ delete k t

unfoldable pub repair : ℕ → String → Exec Engine (Unit {0})
unfolding transition delete
repair now id = do
  row ← gets (λ e. get id e.items)
  i ← or_throw row (at not_found "id")
  throw_if (not (same_state i.state blocked)) (plain state_transition)
  modify (λ e. record e {
    items = put i.id (record i { next_attempt_ms = now }) e.items;
    blocked_code = delete id e.blocked_code;
  })
  transition id pending

unfoldable pub pause : List Stream → Engine → Engine
unfolding set_paused
pause [] e = e
pause (s ∷ ss) e = pause ss (set_paused true s e)

-- A turn of the loop of `resume`, with the enabled consent of the stream.
unfoldable pub resume_stream : Stream → Option Consent → Engine → Engine
unfolding set_paused
resume_stream s none e = e
resume_stream s (some c) e = set_paused false s e

-- The loop of `resume`, before it pumps.
unfoldable pub unpause : List Stream → Engine → Engine
unfolding resume_stream
unpause [] e = e
unpause (s ∷ ss) e = unpause ss (resume_stream s (enabled_consent (e.consents s)) e)
