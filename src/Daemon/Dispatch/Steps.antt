-- ===== src/Daemon/Dispatch/Steps.antt =====
-- packages/gateway-daemon/src/rpc/dispatch.ts: idempotency, the call of the service and the receipt, over the
-- operations table of packages/gateway-daemon/src/store/registry.ts. A saved response is what JSON.parse gives back.
use Prim.Native.String.{◌++◌}
use latticeag_gateway.Base.{
  ℕ, String, Bool, false, not, ◌&&◌, Option, none, some, List, [], ◌∷◌, ◌=ₛ◌, if◌then◌else◌, filter,
  find,
}
use latticeag_gateway.Protocol.Errors.{ErrorCode, plain, at, schema_invalid, idempotency_conflict}
use latticeag_gateway.Protocol.Methods.{MethodSpec}
use latticeag_gateway.Exec.{Result, ok, err}
use latticeag_gateway.Daemon.Envelope.{Request}
use latticeag_gateway.Daemon.Auth.{Principal, PeerTokenStore}
use latticeag_gateway.Daemon.Values.{binding_value}
use latticeag_gateway.Daemon.Dispatch.{
  Response, Reply, replayed, refuse, Context, Call, read_request, authorize,
}

-- The text of a saved response, or a text that is no JSON.
pub data Saved : Type 0 where
  kept : ℕ → Response → Saved
  corrupt : Saved

pub record SavedBinding : Type 0 where
  pub principal_key : String
  pub id : String
  pub request_hash : String
  pub saved : Saved

pub data Outcome : Type 0 where
  succeeded failed_outcome : Outcome

-- The constants `v`, `kind` and `previous_action` are left out.
pub record AuditAction : Type 0 where
  pub method : String
  pub principal : String
  pub request : String
  pub operation : Option String
  pub redacted_params_sha256 : String
  pub result_sha256 : Option String
  pub outcome : Outcome
  pub code : Option ErrorCode

-- A call that waits for its service: what the rest of `run` still reads.
pub record Pending : Type 0 where
  pub request : Request
  pub principal : Principal
  pub spec : MethodSpec
  pub request_hash : Option String

pub record State (N : Type 0) : Type 0 where
  pub nonces : N
  pub bindings : List SavedBinding
  pub audit : List AuditAction
  pub waiting : List Pending

abbrev pub principal_key : Request → Principal → String
principal_key r p = r.workspace ++ (":" ++ p.id)

abbrev pub is_row : String → String → SavedBinding → Bool
is_row key id b = b.principal_key =ₛ key && b.id =ₛ id

-- `lookup(principalKey, id)`
unfoldable pub lookup : String → String → List SavedBinding → Option SavedBinding
lookup key id bs = find (is_row key id) bs

-- INSERT OR REPLACE INTO operations
unfoldable pub bind_operation : SavedBinding → List SavedBinding → List SavedBinding
bind_operation b bs = b ∷ filter (λ x. not (is_row b.principal_key b.id x)) bs

pub data Begun : Type 0 where
  replied : Reply → Begun
  waits : Pending → Begun

-- A retry: the saved response if the content is the same.
unfoldable pub replay : Request → String → SavedBinding → Reply
replay r hash b = elim b.saved [
  | kept status response ↦
      if b.request_hash =ₛ hash
      then record {
        outcome = record {
          status = some status;
          response = response;
          retry_after = false;
          no_store = false;
        };
        method = r.method;
        observed = replayed;
      }
      else refuse (some r.id) r.method (plain idempotency_conflict)
  | corrupt ↦ refuse (some r.id) r.method (plain idempotency_conflict)
]

abbrev pub pending : Request → MethodSpec → Principal → Option String → Begun
pending r spec p hash =
    waits (record { request = r; principal = p; spec = spec; request_hash = hash })

abbrev pub replay_or_wait : Request → MethodSpec → Principal → String → Option SavedBinding → Begun
replay_or_wait r spec p hash none = pending r spec p (some hash)
replay_or_wait r spec p hash (some b) = replied (replay r hash b)

abbrev pub bindings_for : Context → List SavedBinding → List SavedBinding
bindings_for c bs = if c.idempotency then bs else []

abbrev pub with_hash :
    Context → List SavedBinding → Request → MethodSpec → Principal → Option String → Begun
with_hash c bs r spec p none = replied (refuse (some r.id) r.method (at schema_invalid "params"))
with_hash c bs r spec p (some hash) =
    replay_or_wait r spec p hash (lookup (principal_key r p) r.id (bindings_for c bs))

-- The idempotency stage.
unfoldable pub bind_stage : Context → List SavedBinding → Request → MethodSpec → Principal → Begun
unfolding lookup replay
bind_stage c bs r spec p =
    if spec.mutating
    then with_hash c bs r spec p (c.hash_value (binding_value c.auth.sha256 r.method r.params))
    else pending r spec p none

abbrev pub note_waiting : {N : Type 0} → Begun → State N → State N
note_waiting (replied x) s = s
note_waiting (waits p) s = record s { waiting = p ∷ s.waiting }

abbrev pub admitted :
    Context → Request → Result (MethodSpec × Principal) → List SavedBinding → Begun
admitted c r (err e) bs = replied (refuse (some r.id) r.method e)
admitted c r (ok (spec, p)) bs = bind_stage c bs r spec p

module _ {G N : Type 0} (t : PeerTokenStore G N) where
  unfoldable pub begin_request : Context → Call → Request → G → State N → Begun × State N
  unfolding authorize bind_stage
  begin_request c call r grants s =
      let (a, n) = authorize t c call r grants s.nonces in
      let b : Begun = admitted c r a s.bindings in (b, note_waiting b (record s { nonces = n }))

  unfoldable pub begin_read : Context → Call → Result Request → G → State N → Begun × State N
  unfolding begin_request
  begin_read c call (err e) grants s = (replied (refuse none "?" e), s)
  begin_read c call (ok r) grants s = begin_request c call r grants s

  -- `run` up to the call of the service.
  unfoldable pub begin : Context → Call → G → State N → Begun × State N
  unfolding begin_read read_request
  begin c call grants s = begin_read c call (read_request call.body) grants s
