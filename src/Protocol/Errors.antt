-- ===== src/Protocol/Errors.antt =====
-- packages/core/src/v2/protocol/errors.ts: the closed registry of error codes and `RpcError`.
-- An error's message is not modelled.
use latticeag_gateway.Base.{ℕ, String, Bool, true, false, Option, some, none}

pub data ErrorCode : Type 0 where
  json_invalid schema_invalid schema_unsupported method_unknown auth_required token_expired
        token_revoked forbidden not_found :
      ErrorCode
  revision_conflict idempotency_conflict busy backpressure storage_unavailable cursor_gone
        object_limit object_conflict signature_invalid provenance_invalid trust_expired :
      ErrorCode
  dependency_conflict dependents_present unsupported_composition cap_adapter_unavailable
        mint_exclusive_hold_unavailable health_failed sandbox_unavailable plan_stale cancel_unsafe
        outcome_unknown :
      ErrorCode
  port_in_use runtime_unsupported service_manager_unavailable network_denied network_unavailable
        sync_blocked entitlement_required pairing_expired pairing_locked approval_expired
        policy_denied catalog_rollback state_transition artifact_mismatch body_limit :
      ErrorCode
  read_only : ErrorCode

-- Membership in `RETRYABLE`.
unfoldable pub retryable : ErrorCode → Bool
retryable busy = true
retryable backpressure = true
retryable network_unavailable = true
retryable storage_unavailable = true
retryable sync_blocked = true
retryable _ = false

-- `HTTP_STATUS`; `read_only` is no wire code and has no entry.
unfoldable pub http_status : ErrorCode → Option ℕ
http_status json_invalid = some 400
http_status schema_invalid = some 400
http_status schema_unsupported = some 400
http_status method_unknown = some 400
http_status auth_required = some 401
http_status token_expired = some 401
http_status token_revoked = some 401
http_status forbidden = some 403
http_status not_found = some 404
http_status busy = some 429
http_status backpressure = some 429
http_status storage_unavailable = some 503
http_status cursor_gone = some 410
http_status object_limit = some 413
http_status signature_invalid = some 422
http_status provenance_invalid = some 422
http_status trust_expired = some 410
http_status unsupported_composition = some 501
http_status cap_adapter_unavailable = some 501
http_status mint_exclusive_hold_unavailable = some 501
http_status health_failed = some 503
http_status sandbox_unavailable = some 501
http_status runtime_unsupported = some 501
http_status service_manager_unavailable = some 501
http_status network_denied = some 403
http_status network_unavailable = some 503
http_status sync_blocked = some 503
http_status entitlement_required = some 403
http_status pairing_expired = some 410
http_status pairing_locked = some 403
http_status approval_expired = some 410
http_status policy_denied = some 403
http_status artifact_mismatch = some 422
http_status body_limit = some 413
http_status read_only = none
http_status _ = some 409

pub record RpcError : Type 0 where
  pub code : ErrorCode
  pub field : Option String

-- `rpc(code, message)` and `rpc(code, message, field)`.
abbrev pub plain : ErrorCode → RpcError
plain c = record { code = c; field = none }

abbrev pub at : ErrorCode → String → RpcError
at c f = record { code = c; field = some f }
