-- ===== src/Daemon/Dispatch/Once.antt =====
-- packages/gateway-daemon/src/rpc/dispatch.ts: a retry of a call that was served is answered from the table.
use latticeag_gateway.Base.{
  String, Bool, true, false, ◌≡◌, ◌≢◌, refl, ◌∙◌, inl, inr, Option, none, some, List, arith, eq_iff,
  ◌&&◌, if◌then◌else◌, All, Bool-cases,
}
use latticeag_gateway.Exec.{ok}
use latticeag_gateway.Protocol.Errors.{idempotency_conflict}
use latticeag_gateway.Protocol.Values.{Value}
use latticeag_gateway.Protocol.Methods.{MethodSpec}
use latticeag_gateway.Daemon.Auth.{Principal, PeerTokenStore}
use latticeag_gateway.Daemon.Envelope.{Request}
use latticeag_gateway.Daemon.Values.{binding_value}
use latticeag_gateway.Daemon.Dispatch.{
  ReceiptPointer, Reply, Context, Call, served, replayed, failed, read_request, authorize,
  map_thrown, success, Mapped,
}
use latticeag_gateway.Daemon.Dispatch.Steps.{
  SavedBinding, AuditAction, Pending, State, principal_key, lookup, replied, begin, begin_read,
  begin_request, bind_stage, replay, succeeded, failed_outcome,
}
use latticeag_gateway.Daemon.Dispatch.Finish.{
  Called, returns, throws, finish, finish_answer, finish_failed, finish_sealed, finish_bound,
  answer_of, wants_receipt, make_action, binding_of, done_reply,
}
use latticeag_gateway.Daemon.Dispatch.Runs.{Event, run, tracks, Unclaimed, Bound, lookup-bind_self}
use latticeag_gateway.Daemon.Dispatch.Replay.{Bound-run}

-- What a served call leaves: its reply, and a row with the response.
abbrev Left : {N : Type 0} → Pending → String → Reply × State N → Type 0
Left p h (reply, s) =
    (v : Value) × (receipt : Option ReceiptPointer) × (reply ≡ done_reply p v receipt)
    × Bound (principal_key p.request p.principal) p.request.id (binding_of p h v receipt) s

module _ {N : Type 0} (p : Pending) (h : String) (hashed : p.request_hash ≡ some h) where
  failed-lem :
      (a : Option AuditAction) (sealed : Option ReceiptPointer) (m : Mapped) (s : State N)
      → (finish_failed a sealed p m s).0.observed ≡ failed m.code
  unfolding finish_failed
  failed-lem (some a) (some ptr) m s = refl
  failed-lem (some a) none m s = refl
  failed-lem none sealed m s = refl

  Left-sealed :
      (a : Option AuditAction) (sealed : Option ReceiptPointer) (v : Value) (s : State N)
      → (finish_sealed a sealed p v s).0.observed ≡ served
      → Unclaimed (principal_key p.request p.principal) p.request.id s.waiting
      → Left p h (finish_sealed a sealed p v s)
  unfolding finish_sealed
  Left-sealed (some a) (some ptr) v s e free = (
    v,
    some ptr,
    refl,
    (rw hashed (lookup-bind_self (binding_of p h v (some ptr)) s.bindings), free),
  )
  Left-sealed (some a) none v s e free = absurd (ground arith)
  Left-sealed none sealed v s e free = absurd (ground arith)

  Left-finish_bound :
      (o : Option String) (sealed : Option ReceiptPointer) (v : Value) (s : State N)
      → o ≡ some h
      → (finish_bound true o sealed p v s).0.observed ≡ served
      → Unclaimed (principal_key p.request p.principal) p.request.id s.waiting
      → Left p h (finish_bound true o sealed p v s)
  unfolding finish_bound
  Left-finish_bound (some g) (some ptr) v s own e free =
      let same : g ≡ h = ground (arith, own) in
      rw same (v, none, refl, (lookup-bind_self (binding_of p h v none) s.bindings, free))
  Left-finish_bound (some g) none v s own e free = absurd (ground arith)
  Left-finish_bound none sealed v s own e free = absurd (ground arith)

  Left-either :
      (wanted : Bool) (a : Option AuditAction) (binds : Bool) (sealed : Option ReceiptPointer)
      (v : Value) (s : State N)
      → binds ≡ true
      → (if wanted
          then finish_sealed a sealed p v s
          else finish_bound binds p.request_hash sealed p v s).0.observed
        ≡ served
      → Unclaimed (principal_key p.request p.principal) p.request.id s.waiting
      → Left p h (
          if wanted
          then finish_sealed a sealed p v s
          else finish_bound binds p.request_hash sealed p v s)
  Left-either true a binds sealed v s on e free = Left-sealed a sealed v s e free
  Left-either false a true sealed v s on e free =
      Left-finish_bound p.request_hash sealed v s hashed e free
  Left-either false a false sealed v s on e free = absurd (ground (arith, on))

  Left-answer :
      (c : Context) (called : Called) (sealed : Option ReceiptPointer) (s : State N)
      → (c.receipts && c.binds) ≡ true
      → (finish_answer c called sealed p s).0.observed ≡ served
      → Unclaimed (principal_key p.request p.principal) p.request.id s.waiting
      → Left p h (finish_answer c called sealed p s)
  unfolding finish_answer
  Left-answer c (throws x) sealed s on e free = elim (Bool-cases (wants_receipt c p)) [
    | inl wanted ↦
        let a = make_action c p failed_outcome (some (map_thrown x).code) none in
        absurd (ground (arith, e, wanted, failed-lem a sealed (map_thrown x) s))
    | inr unwanted ↦ absurd (ground (arith, e, unwanted))
  ]
  Left-answer c (returns v) sealed s on e free =
      Left-either (wants_receipt c p) (make_action c p succeeded none (some v))
        (c.receipts && c.binds) sealed v s on e free

-- The retry finds the row.
retried_lem :
    (c : Context) (r : Request) (spec : MethodSpec) (p : Principal) (bs : List SavedBinding)
    (b : SavedBinding) (h : String)
    → c.idempotency ≡ true
    → spec.mutating ≡ true
    → c.hash_value (binding_value c.auth.sha256 r.method r.params) ≡ some h
    → lookup (principal_key r p) r.id bs ≡ some b
    → bind_stage c bs r spec p ≡ replied (replay r h b)
unfolding bind_stage
retried_lem c r spec p bs b h on m hash found = ground (arith, on, m, hash, found)

replay_same :
    (r : Request) (p : Pending) (h h' : String) (v : Value) (receipt : Option ReceiptPointer)
    → h ≡ h'
    → ((replay r h' (binding_of p h v receipt)).outcome.response ≡ success p.request.id v receipt)
      × ((replay r h' (binding_of p h v receipt)).outcome.status ≡ some 200)
      × ((replay r h' (binding_of p h v receipt)).observed ≡ replayed)
unfolding replay
replay_same r p h h' v receipt same = rw ((eq_iff h h').1 same) (refl, refl, refl)

replay_other :
    (r : Request) (p : Pending) (h h' : String) (v : Value) (receipt : Option ReceiptPointer)
    → h ≢ h'
    → (replay r h' (binding_of p h v receipt)).observed ≡ failed idempotency_conflict
unfolding replay
replay_other r p h h' v receipt differs = ground (arith, eq_iff h h')

module _ {G N : Type 0} (t : PeerTokenStore G N) where
  begin_lem :
      (c : Context) (call : Call) (g : G) (r : Request) (spec : MethodSpec) (q : Principal)
      (s : State N)
      → read_request call.body ≡ ok r
      → (authorize t c call r g s.nonces).0 ≡ ok (spec, q)
      → (begin t c call g s).0 ≡ bind_stage c s.bindings r spec q
  unfolding begin begin_read begin_request
  begin_lem c call g r spec q s reads admits = rw reads (rw admits refl)

  -- A mutating call that was served, with a sink of receipts and bindings, is remembered: after any further
  -- arrivals and ends of calls, with the operations table at hand, a retry under its id by its principal
  -- that is authorized anew is not run again. With the same content it gets the same response, with another
  -- content an IDEMPOTENCY_CONFLICT. No other call under the id and principal is under way at the end of
  -- the first one.
  pub served_once :
      (c : Context) (called : Called) (sealed : Option ReceiptPointer) (p : Pending) (h : String)
      (s : State N) (es : List (Event G)) (c' : Context) (call : Call) (g : G) (r : Request)
      (spec : MethodSpec) (q : Principal) (h' : String)
      → p.request_hash ≡ some h
      → (c.receipts && c.binds) ≡ true
      → (finish c called sealed p s).0.observed ≡ served
      → Unclaimed (principal_key p.request p.principal) p.request.id s.waiting
      → All (λ e. tracks e ≡ true) es
      → c'.idempotency ≡ true
      → read_request call.body ≡ ok r
      → (authorize t c' call r g (run t es (finish c called sealed p s).1).nonces).0 ≡ ok (spec, q)
      → spec.mutating ≡ true
      → principal_key r q ≡ principal_key p.request p.principal
      → r.id ≡ p.request.id
      → c'.hash_value (binding_value c'.auth.sha256 r.method r.params) ≡ some h'
      → (x : Reply) × ((begin t c' call g (run t es (finish c called sealed p s).1)).0 ≡ replied x)
        × (h ≡ h'
            → (x.outcome.response ≡ (finish c called sealed p s).0.outcome.response)
              × (x.outcome.status ≡ some 200)
              × (x.observed ≡ replayed))
        × (h ≢ h' → x.observed ≡ failed idempotency_conflict)
  unfolding finish
  served_once c called sealed p h s es c' call g r spec q h' hashed on ok_first free tracked on'
        reads admits m same_key same_id hash' =
      let s1 : State N = (finish c called sealed p s).1 in
      let (v, receipt, reply, bound) =
        Left-answer p h hashed c (answer_of c p.request.method called) sealed s on ok_first free in
      let b : SavedBinding = binding_of p h v receipt in
      let found =
        (Bound-run (principal_key p.request p.principal) p.request.id t b es s1 tracked bound).0 in
      (
        replay r h' b,
        begin_lem c' call g r spec q (run t es s1) reads admits
            ∙ retried_lem c' r spec q (run t es s1).bindings b h' on' m hash'
                (rw (same_key, same_id) found),
        (λ same.
            let (response, status, observed) = replay_same r p h h' v receipt same in
            (rw reply response, status, observed)),
        λ differs. replay_other r p h h' v receipt differs,
      )
