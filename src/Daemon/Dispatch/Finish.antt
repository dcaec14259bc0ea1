-- ===== src/Daemon/Dispatch/Finish.antt =====
-- packages/gateway-daemon/src/rpc/dispatch.ts: the answer of the service, its receipt and its binding.
use latticeag_gateway.Base.{
  String, Bool, true, false, not, ◌&&◌, Option, none, some, List, ◌∷◌, if◌then◌else◌, includes,
}
use latticeag_gateway.Base.Table.{get}
use latticeag_gateway.Protocol.Errors.{ErrorCode, retryable, plain, storage_unavailable}
use latticeag_gateway.Protocol.Values.{Value, string_at}
use latticeag_gateway.Daemon.Envelope.{no_receipt_methods}
use latticeag_gateway.Daemon.Gate.{fields_of}
use latticeag_gateway.Daemon.Routes.{
  Group, method_service_map, unavailable_by_domain, token_bearing_methods,
}
use latticeag_gateway.Daemon.Values.{scrub_params}
use latticeag_gateway.Daemon.Dispatch.{
  ReceiptPointer, success, Reply, served, failed, fail, refuse, Thrown, rpc, Mapped, map_thrown,
  Context,
}
use latticeag_gateway.Daemon.Dispatch.Steps.{
  SavedBinding, kept, Outcome, succeeded, failed_outcome, AuditAction, Pending, State,
  principal_key, bind_operation,
}

-- What the service gives.
pub data Called : Type 0 where
  returns : Value → Called
  throws : Thrown → Called

abbrev unavailable : Option ErrorCode → Group → Thrown
unavailable (some code) group = rpc (plain code) (retryable code)
unavailable none group =
    rpc (plain (unavailable_by_domain group)) (retryable (unavailable_by_domain group))

abbrev on_route : Context → String → Called → Option (Group × String) → Called
on_route c method called none = throws Thrown.other
on_route c method called (some (group, fn)) =
    if c.has_service group fn
    then called
    else throws (unavailable (c.unavailable_codes method) group)

-- The service of the method, or what stands for a missing one.
unfoldable pub answer_of : Context → String → Called → Called
answer_of c method called = on_route c method called (get method method_service_map)

abbrev scrubbed_hash : Context → Option Value → Option (Option String)
scrubbed_hash c none = some none
scrubbed_hash c (some v) = elim (c.hash_value (scrub_params v)) [
  | none ↦ none
  | some h ↦ some (some h)
]

-- `makeAction`; it throws where a value has no canonical text.
unfoldable pub make_action :
    Context → Pending → Outcome → Option ErrorCode → Option Value → Option AuditAction
make_action c p outcome code result =
    both (c.hash_value (scrub_params p.request.params)) (scrubbed_hash c result)
  where
    both : Option String → Option (Option String) → Option AuditAction
    both (some h) (some rh) = some (record {
      method = p.request.method;
      principal = p.principal.id;
      request = p.request.id;
      operation = string_at "operation" (fields_of p.request.params);
      redacted_params_sha256 = h;
      result_sha256 = rh;
      outcome = outcome;
      code = code;
    })
    both _ _ = none

-- `methodHasReceipt`, and a sink of receipts.
abbrev pub wants_receipt : Context → Pending → Bool
wants_receipt c p =
    c.receipts && p.spec.receipt && not (includes no_receipt_methods p.request.method)

abbrev pub binding_of : Pending → String → Value → Option ReceiptPointer → SavedBinding
binding_of p hash result receipt = record {
  principal_key = principal_key p.request p.principal;
  id = p.request.id;
  request_hash = hash;
  saved = kept 200 (success p.request.id result receipt);
}

abbrev pub bind_if :
    Pending → Value → Option ReceiptPointer → Option String → List SavedBinding → List SavedBinding
bind_if p result receipt none bs = bs
bind_if p result receipt (some hash) bs = bind_operation (binding_of p hash result receipt) bs

abbrev pub done_reply : Pending → Value → Option ReceiptPointer → Reply
done_reply p result receipt = record {
  outcome = record {
    status = some 200;
    response = success p.request.id result receipt;
    retry_after = false;
    no_store = includes token_bearing_methods p.request.method;
  };
  method = p.request.method;
  observed = served;
}

abbrev pub not_stored : Pending → Reply
not_stored p = refuse (some p.request.id) p.request.method (plain storage_unavailable)

abbrev mapped_retry : Mapped → Bool
mapped_retry m = elim m.retry [ none ↦ retryable m.code | some b ↦ b ]

abbrev failed_reply : Pending → Mapped → Option ReceiptPointer → Reply
failed_reply p m receipt = record {
  outcome = fail (some p.request.id) m.code m.field (mapped_retry m) receipt;
  method = p.request.method;
  observed = failed m.code;
}

module _ {N : Type 0} where
  -- `commitAction`: `sealed` is the pointer that it gives, none where it throws.
  unfoldable pub finish_failed :
      Option AuditAction → Option ReceiptPointer → Pending → Mapped → State N → Reply × State N
  finish_failed (some a) (some ptr) p m s =
      (failed_reply p m (some ptr), record s { audit = a ∷ s.audit })
  finish_failed (some a) none p m s = (failed_reply p m none, s)
  finish_failed none sealed p m s = (failed_reply p m none, s)

  unfoldable pub finish_sealed :
      Option AuditAction → Option ReceiptPointer → Pending → Value → State N → Reply × State N
  unfolding bind_operation
  finish_sealed (some a) (some ptr) p result s = (
    done_reply p result (some ptr),
    record s {
      audit = a ∷ s.audit;
      bindings = bind_if p result (some ptr) p.request_hash s.bindings;
    },
  )
  finish_sealed (some a) none p result s = (not_stored p, s)
  finish_sealed none sealed p result s = (not_stored p, s)

  -- Without a receipt: `commitBind` where there is something to bind.
  unfoldable pub finish_bound :
      Bool → Option String → Option ReceiptPointer → Pending → Value → State N → Reply × State N
  unfolding bind_operation
  finish_bound true (some hash) (some ptr) p result s = (
    done_reply p result none,
    record s { bindings = bind_operation (binding_of p hash result none) s.bindings },
  )
  finish_bound true (some hash) none p result s = (not_stored p, s)
  finish_bound true none sealed p result s = (done_reply p result none, s)
  finish_bound false hash sealed p result s = (done_reply p result none, s)

  -- The rest of `run` behind the answer of the service.
  unfoldable pub finish_answer :
      Context → Called → Option ReceiptPointer → Pending → State N → Reply × State N
  unfolding finish_failed finish_sealed finish_bound make_action map_thrown
  finish_answer c (throws e) sealed p s =
      let m = map_thrown e in
      if wants_receipt c p
      then finish_failed (make_action c p failed_outcome (some m.code) none) sealed p m s
      else (failed_reply p m none, s)
  finish_answer c (returns v) sealed p s =
      if wants_receipt c p
      then finish_sealed (make_action c p succeeded none (some v)) sealed p v s
      else finish_bound (c.receipts && c.binds) p.request_hash sealed p v s

  unfoldable pub finish :
      Context → Called → Option ReceiptPointer → Pending → State N → Reply × State N
  unfolding finish_answer answer_of
  finish c called sealed p s = finish_answer c (answer_of c p.request.method called) sealed p s
