-- ===== src/Sync/Runs.antt =====
-- packages/core/src/v2/sync/outbox.ts: every run of events, on the slots and the items.
use latticeag_gateway.Base.{
  ℕ, String, ◌≡◌, inl, inr, Option, none, some, List, [], ◌∷◌, Option-cases, find,
}
use latticeag_gateway.Sync.{Stream, global_senders}
use latticeag_gateway.Sync.Engine.{
  Phase, preparing, sending, settling, Send, Engine, pause, unpause,
}
use latticeag_gateway.Sync.Sends.{add_send, dispatch, pump}
use latticeag_gateway.Sync.Answers.{
  Answer, settle_answer, staged, is_at, without, prepared, answered, settled,
}
use latticeag_gateway.Sync.Events.{
  EnginePorts, Event, enqueues, repairs, pauses, resumes, pumps, prepares, answers, settles, step,
  run,
}
use latticeag_gateway.Sync.Moves.{items_stay, Kept-refl}
use latticeag_gateway.Sync.Writes.{
  enqueue-Kept, repair-Kept, pause-Kept, unpause-Kept, settle_answer-Kept,
}
use latticeag_gateway.Sync.Slots.{Slots, Added, add_send-Added, next-Slots, end-Slots}
use latticeag_gateway.Sync.Schedule.{
  Runs, Runs-refl, Runs-trans, Kept-Runs, dispatch-Added, pump-Runs,
}

module _ (s : Stream) (x : Send) (e : Engine) (k : Slots e) where
  -- The send of the stream goes over to what was added.
  next-Runs :
      (phase : Phase) (e' : Engine)
      → find (is_at s phase) e.pending_sends ≡ some x
      → Added s (record e { pending_sends = without s phase e.pending_sends }) e'
      → Runs e e'
  next-Runs phase e' found h = record {
    later = h.later;
    slots = next-Slots s phase x e e' k found h;
    admits = h.admits;
  }

prepared-Runs :
    (s : Stream) (outcome : Option (Option String)) (e : Engine)
    → Slots e
    → Runs e (prepared s outcome e)
unfolding prepared
prepared-Runs s outcome e k = elim (Option-cases (find (is_at s preparing) e.pending_sends)) [
  | inl nothing ↦ rw (prepared, nothing) (Runs-refl e k)
  | inr (x, found) ↦
      let taken : Engine = record e { pending_sends = without s preparing e.pending_sends } in
      elim (Option-cases outcome) [
        | inl rejects ↦
            rw (prepared, found, rejects)
              (next-Runs s x e k preparing (add_send s x.members x.batch settling taken) found
                (add_send-Added s x.members x.batch settling taken taken (Kept-refl taken k.keyed)))
        | inr (stage, gives) ↦
            rw (prepared, found, gives)
              (next-Runs s x e k preparing
                (dispatch s x.members x.batch (staged x.batch stage) taken) found
                (dispatch-Added s x.members x.batch (staged x.batch stage) taken k.keyed))
      ]
]

answered-Runs :
    (now : ℕ) (jitter : String → ℕ → ℕ) (s : Stream) (a : Answer) (e : Engine)
    → Slots e
    → Runs e (answered now jitter s a e)
unfolding answered
answered-Runs now jitter s a e k = elim (Option-cases (find (is_at s sending) e.pending_sends)) [
  | inl nothing ↦ rw (answered, nothing) (Runs-refl e k)
  | inr (x, found) ↦
      let taken : Engine = record e { pending_sends = without s sending e.pending_sends } in
      let after : Engine = (settle_answer now jitter s x.batch.items a taken).1 in
      rw (answered, found)
        (next-Runs s x e k sending (add_send s x.members x.batch settling after) found (
          add_send-Added s x.members x.batch settling taken after
            (settle_answer-Kept now jitter x.batch.items s a taken k.keyed)))
]

settled-Runs : (s : Stream) (e : Engine) → Slots e → Runs e (settled s e)
unfolding settled
settled-Runs s e k = elim (Option-cases (find (is_at s settling) e.pending_sends)) [
  | inl nothing ↦ rw (settled, nothing) (Runs-refl e k)
  | inr (x, found) ↦
      rw (settled, found)
        (record {
          later = items_stay e.items k.keyed;
          slots = end-Slots s settling x e k found;
          admits = λ r id i. i;
        })
]

module _ (p : EnginePorts) where
  step-Runs : (x : Event) (e : Engine) → Slots e → Runs e (step p x e)
  unfolding step
  step-Runs (enqueues now a) e k =
      Kept-Runs e (step p (enqueues now a) e) k (enqueue-Kept p.item_id now a e k.keyed)
  step-Runs (repairs now id) e k =
      Kept-Runs e (step p (repairs now id) e) k (repair-Kept now id e k.keyed)
  step-Runs (pauses ss) e k = Kept-Runs e (pause ss e) k (pause-Kept ss e k.keyed)
  step-Runs (resumes now ss) e k =
      let e' : Engine = unpause ss e in
      let h : Runs e e' = Kept-Runs e e' k (unpause-Kept ss e k.keyed) in
      Runs-trans e e' (pump global_senders p.send_ports now none e') h
        (pump-Runs global_senders p.send_ports now none e' h.slots)
  step-Runs (pumps now scope) e k = pump-Runs global_senders p.send_ports now scope e k
  step-Runs (prepares s outcome) e k = prepared-Runs s outcome e k
  step-Runs (answers now jitter s a) e k = answered-Runs now jitter s a e k
  step-Runs (settles s) e k = settled-Runs s e k

  -- Whatever the events are and in whatever order they come.
  pub run-Runs : (xs : List Event) (e : Engine) → Slots e → Runs e (run p xs e)
  unfolding run
  run-Runs [] e k = Runs-refl e k
  run-Runs (x ∷ xs) e k =
      let h = step-Runs x e k in
      Runs-trans e (step p x e) (run p xs (step p x e)) h (run-Runs xs (step p x e) h.slots)
