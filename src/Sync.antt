-- ===== src/Sync.antt =====
-- packages/core/src/v2/protocol/sync.ts and packages/core/src/v2/sync/ports.ts: streams, the states of
-- an outbox item, the limits, the rows of the outbox and the consent of a stream.
pub mod Engine
pub mod Sends
pub mod Answers
pub mod Events
pub mod Moves
pub mod Slots
pub mod Schedule
pub mod Writes
pub mod Runs
pub mod Status
pub mod Batches
pub mod Fill
pub mod Pump
pub mod Settle
pub mod Outcomes
pub mod Safety
pub mod Gate
pub mod Flush
mod Tests
use latticeag_gateway.Base.{
  ℕ, ◌*◌, ◌^◌, String, Bool, true, false, Option, List, [], ◌∷◌, leb, if◌then◌else◌,
}
use latticeag_gateway.Approvals.{NativeRef}

pub data Stream : Type 0 where
  runs receipts lineage approvals watch mesh : Stream

unfoldable pub same_stream : Stream → Stream → Bool
same_stream runs runs = true
same_stream receipts receipts = true
same_stream lineage lineage = true
same_stream approvals approvals = true
same_stream watch watch = true
same_stream mesh mesh = true
same_stream _ _ = false

pub data OutboxState : Type 0 where
  pending in_flight retry blocked acked : OutboxState

abbrev pub same_state : OutboxState → OutboxState → Bool
same_state pending pending = true
same_state in_flight in_flight = true
same_state retry retry = true
same_state blocked blocked = true
same_state acked acked = true
same_state _ _ = false

-- `OUTBOX_TRANSITIONS[from].includes(to)`
abbrev pub can_outbox_transition : OutboxState → OutboxState → Bool
can_outbox_transition pending in_flight = true
can_outbox_transition pending blocked = true
can_outbox_transition in_flight acked = true
can_outbox_transition in_flight retry = true
can_outbox_transition in_flight blocked = true
can_outbox_transition retry in_flight = true
can_outbox_transition retry blocked = true
can_outbox_transition blocked pending = true
can_outbox_transition _ _ = false

-- SYNC_LIMITS
abbrev pub payload_bytes : ℕ
payload_bytes = 1024 * 1024

abbrev pub batch_events : ℕ
batch_events = 1000

abbrev pub batch_bytes : ℕ
batch_bytes = 8 * 1024 * 1024

abbrev pub global_senders : ℕ
global_senders = 2

abbrev pub backoff_cap_ms : ℕ
backoff_cap_ms = 300000

abbrev pub backoff_base_ms : ℕ
backoff_base_ms = 1000

abbrev pub smaller : ℕ → ℕ → ℕ
smaller a b = if leb a b then a else b

abbrev pub larger : ℕ → ℕ → ℕ
larger a b = if leb a b then b else a

-- The attempt is a count, so the floor and the bound below by 0 leave it as it is.
unfoldable pub backoff_cap : ℕ → ℕ
backoff_cap attempt = smaller backoff_cap_ms (backoff_base_ms * 2 ^ attempt)

-- The reference to the immutable payload; its media type is constant.
pub record Payload : Type 0 where
  pub digest : String
  pub bytes : ℕ

pub record OutboxItem : Type 0 where
  pub id : String
  pub destination : String
  pub cohort : String
  pub stream : Stream
  pub source : NativeRef
  pub payload : Payload
  pub consent_revision : String
  pub redaction_sha256 : String
  pub cut_from : String
  pub through : String
  pub state : OutboxState
  pub attempts : ℕ
  pub next_attempt_ms : ℕ
  pub remote_stage : Option String

-- The fields of a consent that the engine itself reads. `policy` is redactionPolicyHash of its profile
-- and disclosure flags, which go to the projection otherwise.
pub record Consent : Type 0 where
  pub enabled : Bool
  pub paused : Bool
  pub cohort : String
  pub cut_from : String
  pub destination : String
  pub revision : String
  pub policy : String
