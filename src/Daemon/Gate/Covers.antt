-- ===== src/Daemon/Gate/Covers.antt =====
-- packages/gateway-daemon/src/rpc/dispatch.ts: the scopes that a peer has for the calls that the gate lets pass.
use latticeag_gateway.Base.{
  String, Bool, true, ◌&&◌, ◌≡◌, refl, ap, subst, Option, none, some, List, [], ◌∷◌, arith, any,
  includes, includes-All, All,
}
use latticeag_gateway.Protocol.Values.{
  Value, Items, null, bool, int, fraction, str, obj, arr, nil, cons, at_key, string_at,
}
use latticeag_gateway.Protocol.Methods.{is_topic}
use latticeag_gateway.Protocol.Peers.{
  Permission, events_emit, events_consume, approvals_request, lineage_read, products_manage,
  same_permission, Scope,
}
use latticeag_gateway.Daemon.Gate.{
  fields_of, peer_scope_allows, gated, allows, consumes, emits, consumes_list, manages,
}

-- One of the scopes has the permission and lists what it is for.
abbrev pub HasScope : List Scope → Permission → (Scope → Bool) → Type 0
HasScope scopes permission lists =
    any (λ s. same_permission s.permission permission && lists s) scopes ≡ true

abbrev pub MayConsume : List Scope → String → Type 0
MayConsume scopes topic =
    (is_topic topic ≡ true) × HasScope scopes events_consume (λ s. includes s.topics topic)

abbrev pub texts : List String → Items
texts [] = nil
texts (t ∷ ts) = cons (str t) (texts ts)

-- What the scopes of a peer are to have for a call; a method that no field names needs no scope.
pub record IsCovered (scopes : List Scope) (method : String) (params : Value) : Type 0 where
  pub publish :
      method ≡ "events.publish"
      → (topic : String) × (string_at "topic" (fields_of params) ≡ some topic)
        × (is_topic topic ≡ true)
        × HasScope scopes events_emit (λ s. includes s.topics topic)
  pub read :
      includes ("events.query" ∷ "events.subscribe" ∷ []) method ≡ true
      → (topics : List String) × (at_key "topics" (fields_of params) ≡ some (arr (texts topics)))
        × All (MayConsume scopes) topics
  pub ack : method ≡ "events.ack" → HasScope scopes events_consume (λ s. true)
  pub approval :
      includes ("approval.request" ∷ "approval.cancel" ∷ []) method ≡ true
      → HasScope scopes approvals_request (λ s. true)
  pub lineage : method ≡ "lineage.query" → HasScope scopes lineage_read (λ s. true)
  pub product :
      includes
          ("product.plan" ∷ "product.install" ∷ "product.uninstall" ∷ "product.update"
            ∷ "product.rollback" ∷ "product.health" ∷ [])
          method
        ≡ true
      → HasScope scopes products_manage (λ s. true)
        × ((slug : String)
            → string_at "slug" (fields_of params) ≡ some slug
            → HasScope scopes products_manage (λ s. includes s.products slug))

any-true :
    (permission : Permission) (scopes : List Scope)
    → any (λ s. same_permission s.permission permission) scopes ≡ true
    → HasScope scopes permission (λ s. true)
any-true permission [] h = absurd (ground arith)
any-true permission (s ∷ ss) h = ground (arith, h, any-true permission ss)

any-first :
    (permission : Permission) (lists : Scope → Bool) (scopes : List Scope)
    → HasScope scopes permission lists
    → HasScope scopes permission (λ s. true)
any-first permission lists [] h = absurd (ground arith)
any-first permission lists (s ∷ ss) h = ground (arith, h, any-first permission lists ss)

module _ (scopes : List Scope) where
  emits_lem :
      (o : Option String)
      → emits scopes o ≡ true
      → (topic : String) × (o ≡ some topic)
        × (is_topic topic ≡ true)
        × HasScope scopes events_emit (λ s. includes s.topics topic)
  emits_lem none h = absurd (ground arith)
  emits_lem (some topic) h = (topic, refl, ground (arith, h), ground (arith, h))

  consumes-All :
      (items : Items)
      → consumes scopes items ≡ true
      → (topics : List String) × (items ≡ texts topics) × All (MayConsume scopes) topics
  unfolding consumes
  consumes-All nil h = ([], refl, tt)
  consumes-All (cons (str t) vs) h =
      let (ts, same, rest) = consumes-All vs (ground (arith, h)) in
      (t ∷ ts, ap (cons (str t)) same, ((ground (arith, h), ground (arith, h)), rest))
  consumes-All (cons null vs) h = absurd (ground arith)
  consumes-All (cons (bool b) vs) h = absurd (ground arith)
  consumes-All (cons (int n) vs) h = absurd (ground arith)
  consumes-All (cons fraction vs) h = absurd (ground arith)
  consumes-All (cons (obj o) vs) h = absurd (ground arith)
  consumes-All (cons (arr vs') vs) h = absurd (ground arith)

  consumes_list_lem :
      (o : Option Value)
      → consumes_list scopes o ≡ true
      → (topics : List String) × (o ≡ some (arr (texts topics))) × All (MayConsume scopes) topics
  consumes_list_lem none h = absurd (ground arith)
  consumes_list_lem (some (arr items)) h =
      let (ts, same, rest) = consumes-All items h in (ts, ap (λ v. some (arr v)) same, rest)
  consumes_list_lem (some null) h = absurd (ground arith)
  consumes_list_lem (some (bool b)) h = absurd (ground arith)
  consumes_list_lem (some (int n)) h = absurd (ground arith)
  consumes_list_lem (some fraction) h = absurd (ground arith)
  consumes_list_lem (some (str s)) h = absurd (ground arith)
  consumes_list_lem (some (obj o)) h = absurd (ground arith)

  manages_lem :
      (o : Option String)
      → manages scopes o ≡ true
      → HasScope scopes products_manage (λ s. true)
        × ((slug : String)
            → o ≡ some slug
            → HasScope scopes products_manage (λ s. includes s.products slug))
  manages_lem none h = (h, λ slug e. absurd (ground (arith, e)))
  manages_lem (some t) h = (
    any-first products_manage (λ s. includes s.products t) scopes h,
    λ slug e.
        let same : t ≡ slug = ground (arith, e) in
        subst (λ t. HasScope scopes products_manage (λ s. includes s.products t)) same h,
  )

-- What the gate lets pass for one method holds for each method of a list.
pub allows-IsCovered :
    (scopes : List Scope) (method : String) (params : Value)
    → peer_scope_allows scopes method params ≡ true
    → IsCovered scopes method params
unfolding peer_scope_allows gated allows
allows-IsCovered scopes method params h =
    let o = fields_of params in
    record {
      publish = λ e.
          emits_lem scopes (string_at "topic" o)
            (subst (λ m. peer_scope_allows scopes m params ≡ true) e h);
      read = λ m.
          includes-All
            (λ m.
              peer_scope_allows scopes m params ≡ true
              → (topics : List String) × (at_key "topics" o ≡ some (arr (texts topics)))
                × All (MayConsume scopes) topics)
            ("events.query" ∷ "events.subscribe" ∷ []) method
            (
              consumes_list_lem scopes (at_key "topics" o),
              (consumes_list_lem scopes (at_key "topics" o), tt),
            )
            m h;
      ack = λ e.
          any-true events_consume scopes
            (subst (λ m. peer_scope_allows scopes m params ≡ true) e h);
      approval = λ m.
          includes-All
            (λ m.
              peer_scope_allows scopes m params ≡ true
              → HasScope scopes approvals_request (λ s. true))
            ("approval.request" ∷ "approval.cancel" ∷ []) method
            (any-true approvals_request scopes, (any-true approvals_request scopes, tt)) m h;
      lineage = λ e.
          any-true lineage_read scopes (subst (λ m. peer_scope_allows scopes m params ≡ true) e h);
      product = λ m.
          let k = manages_lem scopes (string_at "slug" o) in
          includes-All
            (λ m.
              peer_scope_allows scopes m params ≡ true
              → HasScope scopes products_manage (λ s. true)
                × ((slug : String)
                    → string_at "slug" o ≡ some slug
                    → HasScope scopes products_manage (λ s. includes s.products slug)))
            ("product.plan" ∷ "product.install" ∷ "product.uninstall" ∷ "product.update"
              ∷ "product.rollback" ∷ "product.health" ∷ [])
            method (k, (k, (k, (k, (k, (k, tt)))))) m h;
    }
