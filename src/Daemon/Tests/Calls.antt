-- ===== src/Daemon/Tests/Calls.antt =====
-- A call of the local operator: it arrives, is served, and is tried again.
use latticeag_gateway.Base.{
  ℕ, String, true, false, ◌≡◌, ◌≢◌, refl, none, some, List, [], ◌∷◌, ◌&&◌, ◌=ₛ◌,
}
use latticeag_gateway.Base.Table.{Table, get}
use latticeag_gateway.Protocol.Errors.{idempotency_conflict}
use latticeag_gateway.Protocol.Lexical.{is_id, utf8_bytes}
use latticeag_gateway.Protocol.Methods.{MethodSpec, Role, rpc_methods}
use latticeag_gateway.Protocol.Values.{null, obj, str}
use latticeag_gateway.Exec.{ok}
use latticeag_gateway.Peers.Scopes.{operating_locally}
use latticeag_gateway.Daemon.Auth.{
  AuthEnv, Principal, PeerGrant, by_socket, principal_roles, resolve_principal,
}
use latticeag_gateway.Daemon.Auth.Tokens.{in_memory}
use latticeag_gateway.Daemon.Envelope.{
  Request, validate_envelope_request, read_envelope, json_depth, foreign_key, missing_key,
}
use latticeag_gateway.Daemon.Envelope.RoundTrip.{envelope_fields}
use latticeag_gateway.Daemon.Routes.{method_service_map}
use latticeag_gateway.Daemon.Dispatch.{
  Context, Call, parsed, read_request, parse_body, authorize, ReceiptPointer, Reply, served,
  replayed, failed,
}
use latticeag_gateway.Daemon.Dispatch.Steps.{
  Pending, State, begin, begin_read, begin_request, bind_stage, lookup, waits, replied,
}
use latticeag_gateway.Daemon.Dispatch.Finish.{
  returns, finish, finish_answer, finish_sealed, answer_of, make_action,
}
use latticeag_gateway.Daemon.Dispatch.Runs.{arrives, Event, run}
use latticeag_gateway.Daemon.Dispatch.Once.{served_once}

abbrev hash : String
hash = "00000000000000000000000000000000000000000000000000000000000000ab"

abbrev pub env : AuthEnv
env = record {
  instance_id = "gw";
  workspace = "ws";
  epoch = "3";
  sha256 = λ s. s;
  params_sha256 = λ v. some hash;
  b64u_length = λ s. some 32;
  verify_request = λ body proof key. proof =ₛ "sig" && key =ₛ "pub";
}

abbrev context : Context
context = record {
  auth = env;
  peers = true;
  hash_value = λ v. some "h";
  has_service = λ group fn. true;
  unavailable_codes = λ m. none;
  receipts = true;
  binds = true;
  idempotency = true;
}

abbrev request : Request
request = record { id = "r1"; workspace = "ws"; method = "config.apply"; params = null }

abbrev call : Call
call = record {
  now = 5;
  body = parsed (obj (envelope_fields request));
  credentials = by_socket;
  draining = false;
}

abbrev owner : Principal
owner = record {
  id = "local";
  role = operating_locally;
  peer = none;
  scopes = [];
  reviewer = false;
}

abbrev spec : MethodSpec
spec = record { roles = Role.operators ∷ []; mutating = true; receipt = true }

abbrev waiting : Pending
waiting = record { request = request; principal = owner; spec = spec; request_hash = some "h" }

abbrev idle : State (Table (Table ℕ))
idle = record { nonces = []; bindings = []; audit = []; waiting = [] }

read : read_request call.body ≡ ok request
unfolding read_request parse_body validate_envelope_request json_depth read_envelope foreign_key
    missing_key is_id utf8_bytes
read = refl

arrived : (begin in_memory context call [] idle).0 ≡ waits waiting
unfolding begin begin_read begin_request authorize bind_stage principal_roles resolve_principal
    rpc_methods get lookup read_request parse_body validate_envelope_request json_depth
    read_envelope foreign_key missing_key is_id utf8_bytes
arrived = refl

abbrev pointer : ReceiptPointer
pointer = record { workspace = "ws"; event = "e1" }

served_first :
    (finish context (returns (str "done")) (some pointer) waiting idle).0.observed ≡ served
unfolding finish finish_answer answer_of method_service_map get finish_sealed make_action
served_first = refl

abbrev later : List (Event (Table PeerGrant))
later = arrives context call [] ∷ []

authorized :
    let s =
      run in_memory later (finish context (returns (str "done")) (some pointer) waiting idle).1 in
    (authorize in_memory context call request [] s.nonces).0 ≡ ok (spec, owner)
unfolding authorize principal_roles resolve_principal rpc_methods get
authorized = refl

served_once_example :
    (x : Reply) × ((begin in_memory context call [] (
        run in_memory later
          (finish context (returns (str "done")) (some pointer) waiting idle).1)).0
      ≡ replied x)
    × (◌≡◌ {A = String} "h" "h"
        → (x.outcome.response
            ≡ (finish context
                (returns (str "done"))
                (some pointer)
                waiting
                idle).0.outcome.response)
          × (x.outcome.status ≡ some 200)
          × (x.observed ≡ replayed))
    × (◌≢◌ {A = String} "h" "h" → x.observed ≡ failed idempotency_conflict)
served_once_example =
    served_once in_memory context (returns (str "done")) (some pointer) waiting "h" idle later
      context call [] request spec owner "h" refl refl served_first tt (refl, tt) refl read
      authorized refl refl refl refl
