-- ===== src/Daemon/Tests/Publishes.antt =====
-- A peer's call that needs a scope: it publishes on a topic.
use latticeag_gateway.Base.{ℕ, true, false, ◌≡◌, refl, none, some, [], ◌∷◌}
use latticeag_gateway.Base.Table.{Table, get, find_value, values}
use latticeag_gateway.Protocol.Lexical.{
  bearer, behind, is_digits, decimal, is_hash64, is_id, utf8_bytes,
}
use latticeag_gateway.Protocol.Methods.{Role, rpc_methods, is_topic}
use latticeag_gateway.Protocol.Peers.{Scope, events_emit}
use latticeag_gateway.Protocol.Values.{Value, obj, str, field, end}
use latticeag_gateway.Peers.Ports.{Store, grant_by_access_hash}
use latticeag_gateway.Daemon.Auth.{
  by_peer, granted, principal_roles, resolve_principal, resolve_peer_principal, check_grant,
  check_window, use_nonce, check_signature,
}
use latticeag_gateway.Daemon.Auth.Tokens.{durable, lookup_access, durable_nonce_seen, has_nonce}
use latticeag_gateway.Daemon.Gate.{peer_scope_allows, gated, allows}
use latticeag_gateway.Daemon.Envelope.{
  Request, validate_envelope_request, read_envelope, json_depth, foreign_key, missing_key,
}
use latticeag_gateway.Daemon.Envelope.RoundTrip.{envelope_fields}
use latticeag_gateway.Daemon.Dispatch.{Context, Call, parsed, read_request, parse_body, authorize}
use latticeag_gateway.Daemon.Dispatch.Steps.{
  Pending, State, begin, begin_read, begin_request, bind_stage, lookup, waits,
}
use latticeag_gateway.Daemon.Dispatch.Admission.{IsAuthorized, begin-IsAuthorized}
use latticeag_gateway.Daemon.Tests.Peers.{env, rows, grant, headers, known}

abbrev emits : Scope
emits = record { permission = events_emit; topics = "belief" ∷ []; runs = []; products = [] }

abbrev emitting : Store
emitting = record rows { grants = ("g1", record grant { scopes = emits ∷ [] }) ∷ [] }

abbrev params : Value
params = obj (field "topic" (str "belief") end)

abbrev publish : Request
publish = record { id = "r1"; workspace = "ws"; method = "events.publish"; params = params }

abbrev context : Context
context = record {
  auth = env;
  peers = true;
  hash_value = λ v. some "h";
  has_service = λ group fn. true;
  unavailable_codes = λ m. none;
  receipts = true;
  binds = true;
  idempotency = true;
}

abbrev call : Call
call = record {
  now = 6;
  body = parsed (obj (envelope_fields publish));
  credentials = by_peer headers;
  draining = false;
}

abbrev idle : State (Table ℕ)
idle = record { nonces = []; bindings = []; audit = []; waiting = [] }

abbrev waiting : Pending
waiting = record {
  request = publish;
  principal = granted (record known { scopes = emits ∷ [] });
  spec = record { roles = Role.agents ∷ Role.operators ∷ []; mutating = true; receipt = true };
  request_hash = some "h";
}

arrived : (begin durable context call emitting idle).0 ≡ waits waiting
unfolding begin begin_read begin_request authorize bind_stage principal_roles resolve_principal
    rpc_methods get lookup read_request parse_body validate_envelope_request json_depth
    read_envelope foreign_key missing_key is_id utf8_bytes resolve_peer_principal check_grant
    check_window use_nonce check_signature bearer behind is_digits decimal is_hash64 durable
    lookup_access durable_nonce_seen has_nonce grant_by_access_hash find_value values
    peer_scope_allows gated allows is_topic
arrived = refl

begin-IsAuthorized_example : IsAuthorized durable context call emitting idle waiting
begin-IsAuthorized_example = begin-IsAuthorized durable context call emitting idle waiting arrived
