-- ===== src/Daemon/Tests.antt =====
-- Sessions of browsers, envelopes and parameters of calls at concrete inputs; the children look at
-- authentication and dispatch.
mod Calls
mod Peers
mod Publishes
use latticeag_gateway.Base.{
  ℕ, ◌+◌, ◌*◌, ◌≤◌, ◌<◌, String, Bool, true, false, ◌≡◌, ◌↔◌, refl, Option, none, some, List, [],
  ◌∷◌, arith, eq_iff, ◌=ₛ◌, any,
}
use latticeag_gateway.Base.Table.{get, put, remove}
use latticeag_gateway.Protocol.Lexical.{is_id, utf8_bytes}
use latticeag_gateway.Protocol.Methods.{MethodSpec, Role, rpc_methods}
use latticeag_gateway.Protocol.Values.{
  Value, Fields, Items, null, str, obj, arr, end, field, nil, cons,
}
use latticeag_gateway.Exec.{ok}
use latticeag_gateway.Daemon.Sessions.{
  SessionRecord, SessionStore, viewer, create_bootstrap, exchange, open_session, resolve, slide,
  new_session, absolute_ms,
}
use latticeag_gateway.Daemon.Sessions.Runs.{
  creates, exchanges, resolves, revokes, run, step, bootstrap_once,
}
use latticeag_gateway.Daemon.Sessions.Ends.{ends, session_ends}
use latticeag_gateway.Daemon.Envelope.{
  Request, validate_envelope_request, json_depth, is_method_text,
}
use latticeag_gateway.Daemon.Envelope.Depth.{nesting, depth_exact}
use latticeag_gateway.Daemon.Envelope.RoundTrip.{envelope_fields, validate-envelope_fields}
use latticeag_gateway.Daemon.Routes.{Group, method_service_map}
use latticeag_gateway.Daemon.Routes.Total.{routed}
use latticeag_gateway.Daemon.Values.{scrub_params}
use latticeag_gateway.Daemon.Values.Scrubbed.{leaks, scrubbed}

abbrev no_sessions : SessionStore
no_sessions = record { sessions = []; bootstraps = [] }

abbrev booted : SessionStore
booted = record no_sessions {
  bootstraps = ("b1", record { role = viewer; expires_ms = 60000 }) ∷ [];
}

booted_lem : (create_bootstrap 0 "b1" viewer no_sessions).1 ≡ booted
unfolding create_bootstrap put
booted_lem = refl

bootstrap_once_example :
    (exchange 7 "s3" "c3" "b1" (
      run
        (creates 5 "b2" viewer ∷ exchanges 6 "s2" "c2" "b2" ∷ [])
        (exchange 4 "s1" "c1" "b1" booted).1)).0
    ≡ none
bootstrap_once_example =
    bootstrap_once "b1" 4 "s1" "c1" booted (creates 5 "b2" viewer ∷ exchanges 6 "s2" "c2" "b2" ∷ [])
      7 "s3" "c3" ((λ e. absurd (ground (arith, e, eq_iff "b2" "b1"))), ((λ e. e), tt))

abbrev session1 : SessionRecord
session1 = new_session 4 "s1" "c1" viewer

session_ends_example :
    (viewer ≡ viewer)
    × (◌≡◌ {A = String} "c1" "c1")
    × (9 < 4 + absolute_ms viewer)
    × (any (ends "s1") (resolves 8 "s1" ∷ []) ≡ false)
unfolding exchange open_session resolve slide get run step put remove
session_ends_example =
    session_ends 4 "s1" "c1" "b1" booted session1 (resolves 8 "s1" ∷ []) 9
      (record session1 { last_seen_ms = 9 }) refl ((λ e. e), tt) refl

abbrev request1 : Request
request1 = record {
  id = "r1";
  workspace = "ws";
  method = "config.apply";
  params = obj (field "refresh" (str "secret") (field "list" (arr (cons null nil)) end));
}

id-request1 : is_id "r1" ≡ true
unfolding is_id
id-request1 = refl

id-workspace : is_id "ws" ≡ true
unfolding is_id
id-workspace = refl

method-request1 : is_method_text "config.apply" ≡ true
unfolding utf8_bytes
method-request1 = refl

nesting-request1 : nesting request1.params < 32
unfolding nesting
nesting-request1 = omega arith

validate-envelope_fields_example :
    validate_envelope_request (obj (envelope_fields request1)) ≡ ok request1
validate-envelope_fields_example =
    validate-envelope_fields request1 id-request1 id-workspace method-request1 nesting-request1

scrubbed_example : leaks (scrub_params request1.params) ≡ false
scrubbed_example = scrubbed request1.params

abbrev spec1 : MethodSpec
spec1 = record { roles = Role.operators ∷ []; mutating = true; receipt = true }

spec1_lem : get "config.apply" rpc_methods ≡ some spec1
unfolding get rpc_methods
spec1_lem = refl
