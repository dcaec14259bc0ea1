-- ===== src/Peers/Scopes/Admission.antt =====
-- packages/core/src/v2/peers/scopes.ts: what a call that assertScope admits is sure of.
use latticeag_gateway.Base.{◌∷◌, String, Bool, true, ◌≡◌, subst, List, [], any, includes, All}
use latticeag_gateway.Protocol.Values.{Value}
use latticeag_gateway.Protocol.Peers.{events_consume}
use latticeag_gateway.Base.Table.{get}
use latticeag_gateway.Protocol.Methods.{is_topic, rpc_methods, same_role}
use latticeag_gateway.Exec.{Result, ok, or_err}
use latticeag_gateway.Exec.Checks.{◌>>◌, require, bind_ok, require_ok}
use latticeag_gateway.Protocol.Errors.{schema_invalid, method_unknown, forbidden, at}
use latticeag_gateway.Peers.Registry.{Peer}
use latticeag_gateway.Peers.Scopes.Methods.{
  Confirmed, reads, kind_of, has_scope_covering, topic_params, admit_reads, admit, assert_scope,
  need, tier_role,
}

-- What is admitted passes the check of its kind.
admitted :
    (peer : Peer) (method : String) (params : Value) (c : Confirmed)
    → assert_scope peer method params c ≡ ok tt
    → admit (kind_of method) peer params c ≡ ok tt
unfolding assert_scope
admitted peer method params c h =
    let (spec, found, rest) =
      bind_ok (or_err (at method_unknown "method") (get method rpc_methods))
        (λ spec.
          require (any (same_role (tier_role peer.role)) spec.roles) (at forbidden "method")
          >> admit (kind_of method) peer params c)
        tt h in
    (require_ok (any (same_role (tier_role peer.role)) spec.roles) (at forbidden "method")
      (admit (kind_of method) peer params c) tt rest).1

one_read :
    (peer : Peer) (t : String) (next : Result (Unit {0}))
    → (require (is_topic t) (at schema_invalid "topics")
        >> (need peer events_consume (λ s. includes s.topics t) >> next))
      ≡ ok tt
    → ((is_topic t ≡ true)
        × (has_scope_covering peer events_consume (λ s. includes s.topics t) ≡ true))
      × (next ≡ ok tt)
one_read peer t next h =
    let covers : Bool = has_scope_covering peer events_consume (λ s. includes s.topics t) in
    let (topic, rest) =
      require_ok (is_topic t) (at schema_invalid "topics")
        (require covers (at forbidden "params") >> next) tt h in
    let (may, last) = require_ok covers (at forbidden "params") next tt rest in ((topic, may), last)

reads-All :
    (peer : Peer) (ts : List String)
    → admit_reads peer ts ≡ ok tt
    → All
        (λ t.
          (is_topic t ≡ true)
          × (has_scope_covering peer events_consume (λ s. includes s.topics t) ≡ true))
        ts
unfolding admit_reads
reads-All peer [] h = tt
reads-All peer (t ∷ ts) h =
    let (here, rest) = one_read peer t (admit_reads peer ts) h in (here, reads-All peer ts rest)

-- The methods that change products.
abbrev pub product_methods : List String
product_methods =
    "product.plan" ∷ "product.install" ∷ "product.uninstall" ∷ "product.update" ∷ "product.rollback"
    ∷ []

module _ (peer : Peer) (method : String) (params : Value) (c : Confirmed)
    (passes : assert_scope peer method params c ≡ ok tt) where
  -- An admitted read of events asks only for registered topics that a scope of the peer lets it consume.
  pub reads_guarded :
      kind_of method ≡ reads
      → All
          (λ t.
            (is_topic t ≡ true)
            × (has_scope_covering peer events_consume (λ s. includes s.topics t) ≡ true))
          (topic_params params)
  unfolding admit
  reads_guarded kind =
      reads-All peer (topic_params params)
        (subst (λ k. admit k peer params c ≡ ok tt) kind (admitted peer method params c passes))
