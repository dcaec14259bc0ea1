-- ===== src/Peers/Scopes/Methods.antt =====
-- packages/core/src/v2/peers/scopes.ts: assertScope. The `switch` on the method is `kind_of` and `admit`.
use latticeag_gateway.Base.{
  String, Bool, true, false, not, ◌||◌, Option, none, some, List, [], ◌∷◌, ◌=ₛ◌, if◌then◌else◌, any,
  filter, includes,
}
use latticeag_gateway.Base.Table.{get}
use latticeag_gateway.Protocol.Errors.{method_unknown, forbidden, schema_invalid, at}
use latticeag_gateway.Protocol.Values.{
  Value, Fields, Items, null, str, arr, nil, cons, as_object, as_string, at_key, string_at,
}
use latticeag_gateway.Protocol.Peers.{
  Permission, events_emit, events_consume, approvals_request, lineage_read, products_manage,
  same_permission, Scope, Tier, agent, operator, AdmissionContext, check_scope_admission,
}
use latticeag_gateway.Protocol.Methods.{Role, agents, operators, same_role, rpc_methods, is_topic}
use latticeag_gateway.Exec.{Result, ok, err, or_err}
use latticeag_gateway.Exec.Checks.{◌>>=◌, ◌>>◌, require}
use latticeag_gateway.Peers.Registry.{Peer}

-- `scopesFor`
abbrev pub scopes_for : Peer → Permission → List Scope
scopes_for peer permission = filter (λ s. same_permission s.permission permission) peer.scopes

abbrev pub has_scope_covering : Peer → Permission → (Scope → Bool) → Bool
has_scope_covering peer permission covers = any covers (scopes_for peer permission)

abbrev pub scope_covers_run : Peer → String → Bool
scope_covers_run peer run = any (λ s. includes s.runs "self" || includes s.runs run) peer.scopes

abbrev pub scope_covers_product : Peer → String → Bool
scope_covers_product peer slug =
    any (λ s. includes s.products slug) (scopes_for peer products_manage)

-- The strings of an array.
abbrev pub strings_of : Items → List String
strings_of nil = []
strings_of (cons (str s) vs) = s ∷ strings_of vs
strings_of (cons _ vs) = strings_of vs

abbrev one_of : Option String → List String
one_of none = []
one_of (some s) = s ∷ []

abbrev pub topics_or : Option String → Option Value → List String
topics_or topic (some (arr items)) = strings_of items
topics_or topic _ = one_of topic

abbrev topics_in : Option Fields → List String
topics_in none = []
topics_in (some o) = topics_or (string_at "topic" o) (at_key "topics" o)

unfoldable pub topic_params : Value → List String
topic_params params = topics_in (as_object params)

-- The parameter of a name, where the parameters are an object.
abbrev pub param : String → Option Fields → Option Value
param k none = none
param k (some o) = at_key k o

abbrev pub text : Option Value → Option String
text none = none
text (some v) = as_string v

-- `a ?? b`
abbrev pub or_value : Option Value → Option Value → Option Value
or_value none b = b
or_value (some null) b = b
or_value (some v) b = some v

abbrev pub is_text : Option String → String → Bool
is_text none s = false
is_text (some t) s = t =ₛ s

abbrev pub every_run : Peer → Option String → Bool
every_run peer run =
    any (λ s. includes s.runs "self" || any (λ r. is_text run r) s.runs) peer.scopes

abbrev pub has_run : Scope → Bool
has_run s = any (λ r. true) s.runs

pub record Confirmed : Type 0 where
  pub allow_operator : Bool
  pub local_operator_confirmation : Bool

pub data Kind : Type 0 where
  publishes reads acks asks_approval reads_lineage runs_work disconnects manages others : Kind

unfoldable pub kind_of : String → Kind
kind_of m =
    if m =ₛ "events.publish"
    then publishes
    else if m =ₛ "events.query" || m =ₛ "events.subscribe"
    then reads
    else if m =ₛ "events.ack"
    then acks
    else if m =ₛ "approval.request" || m =ₛ "approval.cancel"
    then asks_approval
    else if m =ₛ "lineage.query"
    then reads_lineage
    else if m =ₛ "run.register" || m =ₛ "run.heartbeat" || m =ₛ "run.finish"
    then runs_work
    else if m =ₛ "agent.disconnect"
    then disconnects
    else if m =ₛ "product.plan"
        || m =ₛ "product.install"
        || m =ₛ "product.uninstall"
        || m =ₛ "product.update"
        || m =ₛ "product.rollback"
    then manages
    else others

abbrev pub need : Peer → Permission → (Scope → Bool) → Result (Unit {0})
need peer permission covers =
    require (has_scope_covering peer permission covers) (at forbidden "params")

unfoldable pub admit_publish : Peer → List String → Result (Unit {0})
admit_publish peer [] = err (at schema_invalid "topic")
admit_publish peer (topic ∷ rest) = do
  require (is_topic topic) (at schema_invalid "topic")
  need peer events_emit (λ s. includes s.topics topic)

unfoldable pub admit_reads : Peer → List String → Result (Unit {0})
admit_reads peer [] = ok tt
admit_reads peer (t ∷ ts) = do
  require (is_topic t) (at schema_invalid "topics")
  need peer events_consume (λ s. includes s.topics t)
  admit_reads peer ts

unfoldable pub admit_manages : List Scope → AdmissionContext → Result (Unit {0})
admit_manages [] c = ok tt
admit_manages (s ∷ ss) c = check_scope_admission s c >> admit_manages ss c

abbrev pub slug_covered : Peer → Option String → Bool
slug_covered peer none = true
slug_covered peer (some slug) = scope_covers_product peer slug

abbrev pub slug_of : Value → Option String
slug_of params =
    text (or_value (param "source" (as_object params)) (param "slug" (as_object params)))

unfoldable pub admit_product : Peer → Value → Confirmed → Result (Unit {0})
unfolding admit_manages
admit_product peer params c = do
  require (any (λ s. true) (scopes_for peer products_manage)) (at forbidden "params")
  admit_manages (scopes_for peer products_manage) (record {
    role = peer.role;
    allow_operator = c.allow_operator;
    local_operator_confirmation = c.local_operator_confirmation;
  })
  require (slug_covered peer (slug_of params)) (at forbidden "params")

abbrev pub is_agent : Tier → Bool
is_agent agent = true
is_agent operator = false

unfoldable pub admit : Kind → Peer → Value → Confirmed → Result (Unit {0})
unfolding admit_publish admit_reads admit_product topic_params
admit publishes peer params c = admit_publish peer (topic_params params)
admit reads peer params c = admit_reads peer (topic_params params)
admit acks peer params c = need peer events_consume (λ s. true)
admit asks_approval peer params c = need peer approvals_request has_run
admit reads_lineage peer params c = need peer lineage_read has_run
admit runs_work peer params c =
    require (every_run peer (text (param "run_id" (as_object params)))) (at forbidden "run_id")
admit disconnects peer params c =
    require (not (is_agent peer.role) || is_text (text (param "peer" (as_object params))) peer.id)
      (at forbidden "peer")
admit manages peer params c = admit_product peer params c
admit others peer params c = ok tt

abbrev pub tier_role : Tier → Role
tier_role operator = operators
tier_role agent = agents

unfoldable pub assert_scope : Peer → String → Value → Confirmed → Result (Unit {0})
unfolding kind_of admit
assert_scope peer method params c = do
  spec ← or_err (at method_unknown "method") (get method rpc_methods)
  require (any (same_role (tier_role peer.role)) spec.roles) (at forbidden "method")
  admit (kind_of method) peer params c
