-- ===== src/Daemon/Gate.antt =====
-- packages/gateway-daemon/src/rpc/dispatch.ts: the scope gate of a peer's calls.
pub mod Covers
use latticeag_gateway.Base.{
  String, Bool, true, false, ◌&&◌, ◌||◌, Option, none, some, List, ◌=ₛ◌, if◌then◌else◌, any,
  includes,
}
use latticeag_gateway.Protocol.Values.{
  Value, Fields, Items, str, arr, end, nil, cons, as_object, at_key, string_at,
}
use latticeag_gateway.Protocol.Methods.{is_topic}
use latticeag_gateway.Protocol.Peers.{
  Permission, events_emit, events_consume, approvals_request, lineage_read, products_manage,
  same_permission, Scope,
}

-- `scopeHas(scopes, permission, topic)` with a topic, and `scopes.some((s) => s.permission === permission)`.
abbrev pub scope_has : List Scope → Permission → String → Bool
scope_has scopes permission topic =
    any (λ s. same_permission s.permission permission && includes s.topics topic) scopes

abbrev pub has_permission : List Scope → Permission → Bool
has_permission scopes permission = any (λ s. same_permission s.permission permission) scopes

-- The parameters as an object; any other value has no fields.
abbrev pub fields_of : Value → Fields
fields_of v = elim (as_object v) [ none ↦ end | some o ↦ o ]

abbrev pub emits : List Scope → Option String → Bool
emits scopes none = false
emits scopes (some topic) = is_topic topic && scope_has scopes events_emit topic

unfoldable pub consumes : List Scope → Items → Bool
consumes scopes nil = true
consumes scopes (cons (str t) vs) =
    is_topic t && scope_has scopes events_consume t && consumes scopes vs
consumes scopes (cons _ vs) = false

abbrev pub consumes_list : List Scope → Option Value → Bool
consumes_list scopes (some (arr items)) = consumes scopes items
consumes_list scopes _ = false

abbrev has_product : Option String → Scope → Bool
has_product none s = true
has_product (some slug) s = includes s.products slug

abbrev pub manages : List Scope → Option String → Bool
manages scopes slug =
    any (λ s. same_permission s.permission products_manage && has_product slug s) scopes

-- The cases of the `switch` on the method.
pub data Gated : Type 0 where
  publishes reads acks asks_approval reads_lineage manages_products others : Gated

unfoldable pub gated : String → Gated
gated m =
    if m =ₛ "events.publish"
    then publishes
    else if m =ₛ "events.query" || m =ₛ "events.subscribe"
    then reads
    else if m =ₛ "events.ack"
    then acks
    else if m =ₛ "approval.request" || m =ₛ "approval.cancel"
    then asks_approval
    else if m =ₛ "lineage.query"
    then reads_lineage
    else if m =ₛ "product.plan"
        || m =ₛ "product.install"
        || m =ₛ "product.uninstall"
        || m =ₛ "product.update"
        || m =ₛ "product.rollback"
        || m =ₛ "product.health"
    then manages_products
    else others

unfoldable pub allows : Gated → List Scope → Fields → Bool
unfolding consumes
allows publishes scopes o = emits scopes (string_at "topic" o)
allows reads scopes o = consumes_list scopes (at_key "topics" o)
allows acks scopes o = has_permission scopes events_consume
allows asks_approval scopes o = has_permission scopes approvals_request
allows reads_lineage scopes o = has_permission scopes lineage_read
allows manages_products scopes o = manages scopes (string_at "slug" o)
allows others scopes o = true

unfoldable pub peer_scope_allows : List Scope → String → Value → Bool
unfolding gated allows
peer_scope_allows scopes method params = allows (gated method) scopes (fields_of params)
