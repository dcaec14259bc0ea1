-- ===== src/Sync/Events.antt =====
-- The engine under every interleaving of calls with the promises of its sends.
use latticeag_gateway.Base.{ℕ, String, Option, none, List, [], ◌∷◌}
use latticeag_gateway.Approvals.{NativeRef}
use latticeag_gateway.Sync.{Stream, global_senders, Consent}
use latticeag_gateway.Sync.Engine.{Engine, EnqueueArgs, enqueue, repair, pause, unpause}
use latticeag_gateway.Sync.Sends.{SendPorts, pump}
use latticeag_gateway.Sync.Answers.{Answer, prepared, answered, settled}

pub record EnginePorts : Type 0 where
  pub send_ports : SendPorts
  -- outboxItemId
  pub item_id : Consent → Stream → NativeRef → String

-- What may happen next, with the clock that it reads.
pub data Event : Type 0 where
  enqueues : ℕ → EnqueueArgs → Event
  repairs : ℕ → String → Event
  pauses : List Stream → Event
  resumes : ℕ → List Stream → Event
  pumps : ℕ → Option (List Stream) → Event
  prepares : Stream → Option (Option String) → Event
  answers : ℕ → (String → ℕ → ℕ) → Stream → Answer → Event
  settles : Stream → Event

module _ (p : EnginePorts) where
  -- A pump takes no more than `global_senders` turns.
  unfoldable pub step : Event → Engine → Engine
  step (enqueues now a) e = (enqueue p.item_id now a e).1
  step (repairs now id) e = (repair now id e).1
  step (pauses ss) e = pause ss e
  step (resumes now ss) e = pump global_senders p.send_ports now none (unpause ss e)
  step (pumps now scope) e = pump global_senders p.send_ports now scope e
  step (prepares s outcome) e = prepared s outcome e
  step (answers now jitter s a) e = answered now jitter s a e
  step (settles s) e = settled s e

  unfoldable pub run : List Event → Engine → Engine
  unfolding step
  run [] e = e
  run (x ∷ xs) e = run xs (step x e)
