-- ===== src/Daemon/Dispatch.antt =====
-- packages/gateway-daemon/src/rpc/dispatch.ts: the way of a call. `begin` is `run` up to the call of the
-- service, `finish` what comes after its answer; the daemon runs many at once, so a call that waits for its
-- service is a row in `waiting`. The commit of the receipt is one step with what follows it.
pub mod Steps
pub mod Finish
pub mod Runs
pub mod Replay
pub mod Once
pub mod Admission
use Prim.Native.String.{◌++◌}
use latticeag_gateway.Base.{
  ℕ, String, Bool, true, false, not, ◌&&◌, ◌||◌, Option, none, some, List, [], ◌∷◌, ◌=ₛ◌, ltb,
  if◌then◌else◌, any, filter, find, includes,
}
use latticeag_gateway.Base.Table.{get}
use latticeag_gateway.Protocol.Errors.{
  ErrorCode, RpcError, http_status, retryable, plain, at, body_limit, json_invalid, method_unknown,
  auth_required, forbidden, state_transition, schema_invalid, idempotency_conflict,
  storage_unavailable, read_only, object_limit, not_found,
}
use latticeag_gateway.Protocol.Values.{Value, Fields, as_object, string_at}
use latticeag_gateway.Protocol.Methods.{MethodSpec, rpc_methods, same_role}
use latticeag_gateway.Exec.{
  Result, ok, err, or_err, Exec, pure, throw, or_throw, lift, ◌>>=◌, ◌>>◌, throw_if,
}
use latticeag_gateway.Exec.Checks
use latticeag_gateway.Peers.Scopes.{PrincipalRole, holds}
use latticeag_gateway.Daemon.Envelope.{
  Request, request_body_bytes, no_receipt_methods, validate_envelope_request,
}
use latticeag_gateway.Daemon.Auth.{
  AuthEnv, Principal, PeerTokenStore, TransportCredentials, by_peer, principal_roles,
  resolve_principal,
}
use latticeag_gateway.Daemon.Gate.{peer_scope_allows, fields_of}
use latticeag_gateway.Daemon.Routes.{
  Group, method_service_map, unavailable_by_domain, token_bearing_methods,
}
use latticeag_gateway.Daemon.Values.{scrub_params, binding_value}

-- The `event` of a receipt is a text here.
pub record ReceiptPointer : Type 0 where
  pub workspace : String
  pub event : String

pub data Response : Type 0 where
  success : String → Value → Option ReceiptPointer → Response
  failure : Option String → ErrorCode → Bool → Option String → Option ReceiptPointer → Response

-- The headers are `Retry-After: 1` and `Cache-Control: no-store`.
pub record DispatchOutcome : Type 0 where
  pub status : Option ℕ
  pub response : Response
  pub retry_after : Bool
  pub no_store : Bool

-- What `observe` is told beside the method.
pub data Observed : Type 0 where
  served replayed : Observed
  failed : ErrorCode → Observed

pub record Reply : Type 0 where
  pub outcome : DispatchOutcome
  pub method : String
  pub observed : Observed

-- `fail(id, code, opts)`
unfoldable pub fail :
    Option String → ErrorCode → Option String → Bool → Option ReceiptPointer → DispatchOutcome
fail id code field retry receipt = record {
  status = http_status code;
  response = failure id code retry field receipt;
  retry_after = retry;
  no_store = false;
}

-- `fail(id, code, { field })`
abbrev pub refuse : Option String → String → RpcError → Reply
refuse id method e = record {
  outcome = fail id e.code e.field (retryable e.code) none;
  method = method;
  observed = failed e.code;
}

-- What a service throws: an RpcError with its own `retryable`, another error with a code, or anything.
pub data Thrown : Type 0 where
  rpc : RpcError → Bool → Thrown
  coded : String → Thrown
  other : Thrown

pub record Mapped : Type 0 where
  pub code : ErrorCode
  pub field : Option String
  pub retry : Option Bool

abbrev mapped_code : ErrorCode → ErrorCode
mapped_code read_only = state_transition
mapped_code c = c

abbrev code_of : String → ErrorCode
code_of c =
    if c =ₛ "READ_ONLY"
    then state_transition
    else if c =ₛ "CORRUPT"
        || c =ₛ "CHAIN_MISMATCH"
        || c =ₛ "IDENTITY_MISMATCH"
        || c =ₛ "MUTATION_UNKNOWN"
    then storage_unavailable
    else if c =ₛ "OBJECT_LIMIT"
    then object_limit
    else if c =ₛ "BAD_DIGEST" || c =ₛ "BAD_RECORD" || c =ₛ "BAD_LANE" || c =ₛ "BAD_CURSOR"
    then schema_invalid
    else if c =ₛ "NOT_FOUND" || c =ₛ "INVALID_TRANSITION"
    then not_found
    else storage_unavailable

unfoldable pub map_thrown : Thrown → Mapped
map_thrown (rpc e retry) = record { code = mapped_code e.code; field = e.field; retry = some retry }
map_thrown (coded c) = record { code = code_of c; field = none; retry = none }
map_thrown other = record { code = storage_unavailable; field = none; retry = none }

-- A body of some length with what parseStrictJson makes of it, or a value that was parsed already.
pub data Body : Type 0 where
  raw : ℕ → Result Value → Body
  parsed : Value → Body

-- `parseStrictJson` gives the field of a JSON_INVALID.
unfoldable pub parse_body : Body → Result Value
parse_body (raw n r) = if ltb request_body_bytes n then err (plain body_limit) else r
parse_body (parsed v) = ok v

unfoldable pub read_request : Body → Result Request
unfolding parse_body
read_request b = Checks.◌>>=◌ (parse_body b) validate_envelope_request

-- DispatchContext: `peers` tells whether peers' tokens are enabled, `has_service` which services there are,
-- `receipts` whether there is a sink of receipts and `binds` whether it has commitBind.
pub record Context : Type 0 where
  pub auth : AuthEnv
  pub peers : Bool
  pub hash_value : Value → Option String
  pub has_service : Group → String → Bool
  pub unavailable_codes : String → Option ErrorCode
  pub receipts : Bool
  pub binds : Bool
  pub idempotency : Bool

pub record Call : Type 0 where
  pub now : ℕ
  pub body : Body
  pub credentials : TransportCredentials
  pub draining : Bool

abbrev is_by_peer : TransportCredentials → Bool
is_by_peer (by_peer h) = true
is_by_peer _ = false

abbrev scoped : Principal → Request → Bool
scoped p r = elim p.peer [ none ↦ true | some id ↦ peer_scope_allows p.scopes r.method r.params ]

module _ {G N : Type 0} (t : PeerTokenStore G N) where
  -- From the name of the method to the scope of the peer.
  unfoldable pub authorize : Context → Call → Request → G → Exec N (MethodSpec × Principal)
  unfolding resolve_principal
  authorize c call r grants = do
    spec ← or_throw (get r.method rpc_methods) (plain method_unknown)
    throw_if (not c.peers && is_by_peer call.credentials) (plain auth_required)
    p ← resolve_principal t call.credentials c.auth call.now r grants
    throw_if (not (r.workspace =ₛ c.auth.workspace)) (at forbidden "workspace")
    throw_if (not (holds spec.roles (principal_roles p))) (at forbidden "method")
    throw_if (spec.mutating && call.draining) (plain state_transition)
    throw_if (not (scoped p r)) (at forbidden "params")
    pure (spec, p)
