-- ===== src/Peers/Tests/Scopes.antt =====
-- Grants and admissions of one peer.
use latticeag_gateway.Base.{String, true, false, ◌≡◌, refl, none, List, [], ◌∷◌, All}
use latticeag_gateway.Base.Table.{get}
use latticeag_gateway.Protocol.Values.{Value, obj, str, arr, nil, cons, field, end}
use latticeag_gateway.Protocol.Peers
use latticeag_gateway.Protocol.Peers.{
  Scope, Capability, events_emit, events_consume, products_manage, operator,
}
use latticeag_gateway.Protocol.Methods.{rpc_methods, is_topic}
use latticeag_gateway.Exec.{ok}
use latticeag_gateway.Peers.Pairs.{scope_within}
use latticeag_gateway.Peers.Registry.{Peer}
use latticeag_gateway.Peers.Scopes.{
  intersect_scopes, intersect_onto, merge_all, merge_onto, effective_grant,
}
use latticeag_gateway.Peers.Scopes.Grants.{under_policy, grant_narrows}
use latticeag_gateway.Peers.Scopes.Methods.{
  Confirmed, reads, kind_of, topic_params, admit, admit_reads, assert_scope,
}

abbrev emits : List String → Scope
emits runs = record { permission = events_emit; topics = []; runs = runs; products = [] }

-- Two intersections whose texts join to the same one: the second is lost.
lost_example :
    intersect_scopes
      (emits ("a" ∷ "b" ∷ []) ∷ emits ("ab" ∷ []) ∷ [])
      (emits ("a" ∷ "b" ∷ "ab" ∷ []) ∷ [])
    ≡ emits ("a" ∷ "b" ∷ []) ∷ []
unfolding intersect_scopes intersect_onto merge_all merge_onto
lost_example = refl

grant_narrows_example :
    All
      (λ s.
        (scope_within s (emits ("a" ∷ "b" ∷ []) ∷ []) ≡ true)
        × (scope_within s (emits ("b" ∷ []) ∷ []) ≡ true)
        × (under_policy s none ≡ true))
      (effective_grant (emits ("a" ∷ "b" ∷ []) ∷ []) (emits ("b" ∷ []) ∷ []) none)
grant_narrows_example = grant_narrows (emits ("a" ∷ "b" ∷ []) ∷ []) (emits ("b" ∷ []) ∷ []) none

abbrev capability : Capability
capability = record {
  name = "c";
  profiles = [];
  emit = "belief" ∷ [];
  consume = [];
  request_approvals = false;
  lineage = Peers.none_of;
}

abbrev peer : Peer
peer = record {
  id = "p1";
  source = "s";
  key = "k";
  role = operator;
  scopes =
      record { permission = products_manage; topics = []; runs = []; products = "cis" ∷ [] }
      ∷ record { permission = events_consume; topics = "belief" ∷ []; runs = []; products = [] }
      ∷ [];
  capabilities = [];
  state = Peers.connected;
  grant_revision = 1;
}

abbrev confirmed : Confirmed
confirmed = record { allow_operator = true; local_operator_confirmation = true }

abbrev install : Value
install = obj (field "source" (str "cis") end)

abbrev query : Value
query = obj (field "topics" (arr (cons (str "belief") nil)) end)

queries : assert_scope peer "events.query" query confirmed ≡ ok tt
unfolding assert_scope kind_of admit admit_reads topic_params rpc_methods is_topic get
queries = refl

is_reading : kind_of "events.query" ≡ reads
unfolding kind_of
is_reading = refl
