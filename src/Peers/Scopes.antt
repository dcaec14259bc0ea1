-- ===== src/Peers/Scopes.antt =====
-- packages/core/src/v2/peers/scopes.ts: what a peer is granted, and what a method asks of its scopes.
pub mod Grants
pub mod Methods
pub mod Admission
use Prim.Native.String.{◌++◌ as ◌<>◌}
use latticeag_gateway.Base.{
  ℕ, String, Bool, true, false, not, ◌&&◌, ◌||◌, Option, none, some, List, [], ◌∷◌, ◌++◌, ◌=ₛ◌,
  if◌then◌else◌, any, all, filter, includes, length, ltb,
}
use latticeag_gateway.Base.Table.{Table, get}
use latticeag_gateway.Protocol.Errors.{method_unknown, forbidden, schema_invalid, at}
use latticeag_gateway.Protocol.Values.{
  Value, Fields, Items, str, arr, nil, cons, as_object, as_string, at_key, string_at,
}
use latticeag_gateway.Protocol.Peers.{
  Permission, events_emit, events_consume, approvals_request, lineage_read, products_manage,
  same_permission, Scope, Capability, Lineage, none_of, own, Tier, agent, operator,
  AdmissionContext, check_scope_admission,
}
use latticeag_gateway.Protocol.Methods.{
  Role, viewer, agents, operators, reviewers, local, pairing, same_role, MethodSpec, rpc_methods,
  is_topic,
}
use latticeag_gateway.Exec.{Result, ok, err, or_err}
use latticeag_gateway.Exec.Checks.{◌>>=◌, ◌>>◌, require}
use latticeag_gateway.Peers.Registry.{Peer}

-- `Principal["role"]` of packages/core/src/v2/protocol/services.ts
pub data PrincipalRole : Type 0 where
  viewing acting operating operating_locally bootstrapping : PrincipalRole

abbrev pub letter : PrincipalRole → Role
letter viewing = viewer
letter acting = agents
letter operating = operators
letter operating_locally = local
letter bootstrapping = pairing

abbrev pub principal_roles : PrincipalRole → Bool → List Role
principal_roles r reviewer = if reviewer then letter r ∷ reviewers ∷ [] else letter r ∷ []

abbrev pub holds : List Role → List Role → Bool
holds roles held = any (λ r. any (same_role r) roles) held

unfoldable pub assert_role : PrincipalRole → Bool → String → Result (Unit {0})
assert_role role reviewer method = do
  spec ← or_err (at method_unknown "method") (get method rpc_methods)
  require (holds spec.roles (principal_roles role reviewer)) (at forbidden "method")

-- `xs.join("")`
abbrev pub join : List String → String
join [] = ""
join (x ∷ xs) = x <> join xs

abbrev pub merge : Scope → Scope → Scope
merge s o = record {
  permission = s.permission;
  topics = filter (includes o.topics) s.topics;
  runs = filter (includes o.runs) s.runs;
  products = filter (includes o.products) s.products;
}

abbrev pub same_joined : Scope → Scope → Bool
same_joined m e =
    same_permission e.permission m.permission
    && join e.topics =ₛ join m.topics
    && join e.runs =ₛ join m.runs
    && join e.products =ₛ join m.products

-- The turn of the inner loop.
unfoldable pub merge_onto : Scope → Scope → List Scope → List Scope
merge_onto s o out =
    if not (same_permission s.permission o.permission)
    then out
    else if any (same_joined (merge s o)) out
    then out
    else out ++ (merge s o ∷ [])

unfoldable pub merge_all : Scope → List Scope → List Scope → List Scope
unfolding merge_onto
merge_all s [] out = out
merge_all s (o ∷ os) out = merge_all s os (merge_onto s o out)

unfoldable pub intersect_onto : List Scope → List Scope → List Scope → List Scope
unfolding merge_all
intersect_onto [] b out = out
intersect_onto (s ∷ ss) b out = intersect_onto ss b (merge_all s b out)

unfoldable pub intersect_scopes : List Scope → List Scope → List Scope
unfolding intersect_onto
intersect_scopes a b = intersect_onto a b []

abbrev pub narrow : Option (List Scope) → List Scope → List Scope
narrow none grant = grant
narrow (some policy) grant = intersect_scopes grant policy

unfoldable pub effective_grant : List Scope → List Scope → Option (List Scope) → List Scope
unfolding intersect_scopes
effective_grant requested approved policy = narrow policy (intersect_scopes requested approved)

-- `capabilities.flatMap((c) => c.emit)`
abbrev pub flat : (Capability → List String) → List Capability → List String
flat f [] = []
flat f (c ∷ cs) = f c ++ flat f cs

abbrev pub is_own : Lineage → Bool
is_own own = true
is_own none_of = false

abbrev pub keep_if : Bool → Scope → List Scope → List Scope
keep_if b s rest = if b then s ∷ rest else rest

-- A turn of `bindCapabilities`.
abbrev pub bind_one : List Capability → Permission → Scope → List Scope → List Scope
bind_one cs events_emit s rest =
    record s { topics = filter (includes (flat (λ c. c.emit) cs)) s.topics } ∷ rest
bind_one cs events_consume s rest =
    record s { topics = filter (includes (flat (λ c. c.consume) cs)) s.topics } ∷ rest
bind_one cs approvals_request s rest = keep_if (any (λ c. c.request_approvals) cs) s rest
bind_one cs lineage_read s rest = keep_if (any (λ c. is_own c.lineage) cs) s rest
bind_one cs products_manage s rest = s ∷ rest

unfoldable pub bind_capabilities : List Scope → List Capability → List Scope
bind_capabilities [] cs = []
bind_capabilities (s ∷ ss) cs = bind_one cs s.permission s (bind_capabilities ss cs)
