-- ===== src/Sync/Answers.antt =====
-- packages/core/src/v2/sync/outbox.ts: what the promises of a send do when they come to an end.
use latticeag_gateway.Base.{
  ℕ, ◌-◌, String, Bool, true, false, not, ◌&&◌, Option, none, some, List, [], ◌∷◌, if◌then◌else◌,
  filter, find,
}
use latticeag_gateway.Protocol.Errors.{ErrorCode, object_conflict}
use latticeag_gateway.Exec.{ok, err, Exec, ◌>>◌, modify}
use latticeag_gateway.Sync.{Stream, same_stream, acked}
use latticeag_gateway.Sync.Sends.{add_send, block_all, retry_all, move_each, dispatch}
use latticeag_gateway.Sync.Engine.{OutboxBatch, Phase, preparing, sending, settling, Send, Engine}

-- What a promise that an adapter gave comes to: an acknowledgement (whether it is valid, has
-- conflicts, is stored; its cut), a SinkError that is not retryable, or any other error with the
-- Retry-After that it carries.
pub data Answer : Type 0 where
  ack : Bool → Bool → Bool → String → Answer
  refused : ErrorCode → Answer
  failed : Option ℕ → Answer

-- `try { m } catch { this.retryAll(items, undefined) }`, for what a transition throws.
unfoldable pub or_retry :
    ℕ → (String → ℕ → ℕ) → List String → Exec Engine (Unit {0}) → Exec Engine (Unit {0})
or_retry now jitter ids m e =
    let (r, e') = m e in elim r [ ok u ↦ (ok u, e') | err x ↦ retry_all now jitter none ids e' ]

abbrev pub mark_through : Stream → String → Engine → Engine
mark_through s through e = record e {
  through_marks = λ t. if same_stream s t then some through else e.through_marks t;
}

-- `runSend` behind `await sink.send(staged)`.
unfoldable pub settle_answer :
    ℕ → (String → ℕ → ℕ) → Stream → List String → Answer → Exec Engine (Unit {0})
unfolding retry_all block_all move_each or_retry
settle_answer now jitter s ids (refused code) = block_all code ids
settle_answer now jitter s ids (failed retry_after) = retry_all now jitter retry_after ids
settle_answer now jitter s ids (ack valid conflicts stored through) =
    if not valid
    then retry_all now jitter none ids
    else if conflicts
    then or_retry now jitter ids (block_all object_conflict ids)
    else if stored
    then or_retry now jitter ids
        (move_each (λ id e. e) acked ids >> modify (mark_through s through))
    else or_retry now jitter ids (retry_all now jitter none ids)

abbrev pub same_phase : Phase → Phase → Bool
same_phase preparing preparing = true
same_phase sending sending = true
same_phase settling settling = true
same_phase _ _ = false

abbrev pub is_at : Stream → Phase → Send → Bool
is_at s phase x = same_stream x.stream s && same_phase x.phase phase

-- The promises but for the first one that fits.
unfoldable pub without : Stream → Phase → List Send → List Send
without s phase [] = []
without s phase (x ∷ xs) = let rest = without s phase xs in if is_at s phase x then xs else x ∷ rest

abbrev taken : Stream → Phase → Engine → Engine
taken s phase e = record e { pending_sends = without s phase e.pending_sends }

-- `(await sink.prepare(batch)) ?? batch.stage`
abbrev pub staged : OutboxBatch → Option String → Option String
staged batch none = batch.stage
staged batch (some stage) = some stage

-- `sink.prepare` of a stream's send gives a stage, or rejects (`none`), which rejects the promise.
unfoldable pub prepared : Stream → Option (Option String) → Engine → Engine
prepared s outcome e = elim (find (is_at s preparing) e.pending_sends) [
  | none ↦ e
  | some x ↦ elim outcome [
    | none ↦ add_send s x.members x.batch settling (taken s preparing e)
    | some stage ↦ dispatch s x.members x.batch (staged x.batch stage) (taken s preparing e)
  ]
]

-- `sink.send` of a stream's send comes to an answer.
unfoldable pub answered : ℕ → (String → ℕ → ℕ) → Stream → Answer → Engine → Engine
answered now jitter s a e = elim (find (is_at s sending) e.pending_sends) [
  | none ↦ e
  | some x ↦
      add_send s x.members x.batch settling
        (settle_answer now jitter s x.batch.items a (taken s sending e)).1
]

-- `finally`
unfoldable pub settled : Stream → Engine → Engine
settled s e = elim (find (is_at s settling) e.pending_sends) [
  | none ↦ e
  | some x ↦ record (taken s settling e) {
    in_flight_sends = e.in_flight_sends - 1;
    stream_in_flight = filter (λ t. not (same_stream t s)) e.stream_in_flight;
  }
]
