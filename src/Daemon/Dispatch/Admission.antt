-- ===== src/Daemon/Dispatch/Admission.antt =====
-- packages/gateway-daemon/src/rpc/dispatch.ts: what is sure of a call that reaches its service.
use latticeag_gateway.Base.{
  String, Bool, true, false, ◌≡◌, refl, sym, ap, ◌∙◌, subst, Option, none, some, List, arith,
  eq_iff, not, ◌&&◌, if◌then◌else◌,
}
use latticeag_gateway.Base.Table.{get}
use latticeag_gateway.Exec.{Result, ok, err}
use latticeag_gateway.Protocol.Methods.{MethodSpec, rpc_methods}
use latticeag_gateway.Peers.Scopes.{holds}
use latticeag_gateway.Daemon.Auth.{Principal, PeerTokenStore, principal_roles, resolve_principal}
use latticeag_gateway.Daemon.Gate.{peer_scope_allows}
use latticeag_gateway.Daemon.Gate.Covers.{IsCovered, allows-IsCovered}
use latticeag_gateway.Daemon.Envelope.{Request}
use latticeag_gateway.Daemon.Values.{binding_value}
use latticeag_gateway.Daemon.Dispatch.{Context, Call, read_request, authorize, scoped, is_by_peer}
use latticeag_gateway.Daemon.Dispatch.Steps.{
  SavedBinding, Pending, State, waits, begin, begin_read, begin_request, bind_stage, admitted,
  with_hash, replay_or_wait, pending, lookup, principal_key, bindings_for,
}

module _ {G N : Type 0} (t : PeerTokenStore G N) (c : Context) (call : Call) (g : G) where
  -- The conditions under which a call is run.
  pub record IsAuthorized (s : State N) (p : Pending) : Type 0 where
    pub envelope : read_request call.body ≡ ok p.request
    pub method : get p.request.method rpc_methods ≡ some p.spec
    pub peers : (not c.peers && is_by_peer call.credentials) ≡ false
    pub authentic :
        (resolve_principal t call.credentials c.auth call.now p.request g s.nonces).0
        ≡ ok p.principal
    pub workspace : p.request.workspace ≡ c.auth.workspace
    pub role : holds p.spec.roles (principal_roles p.principal) ≡ true
    pub draining : (p.spec.mutating && call.draining) ≡ false
    pub scope :
        (id : String)
        → p.principal.peer ≡ some id
        → IsCovered p.principal.scopes p.request.method p.request.params
    pub unbound :
        p.spec.mutating ≡ true
        → lookup (principal_key p.request p.principal) p.request.id (bindings_for c s.bindings)
          ≡ none

  abbrev Passes : Request → State N → MethodSpec × Principal → Type 0
  Passes r s (spec, p) =
      (get r.method rpc_methods ≡ some spec)
      × ((not c.peers && is_by_peer call.credentials) ≡ false)
      × ((resolve_principal t call.credentials c.auth call.now r g s.nonces).0 ≡ ok p)
      × (r.workspace ≡ c.auth.workspace)
      × (holds spec.roles (principal_roles p) ≡ true)
      × ((spec.mutating && call.draining) ≡ false)
      × (scoped p r ≡ true)

  passes_lem :
      (r : Request) (s : State N) (spec : MethodSpec) (p : Principal)
      → (authorize t c call r g s.nonces).0 ≡ ok (spec, p)
      → Passes r s (spec, p)
  unfolding authorize
  passes_lem r s spec p h = (
    ground (arith, h, eq_iff r.workspace c.auth.workspace),
    ground (arith, h, eq_iff r.workspace c.auth.workspace),
    ground (arith, h, eq_iff r.workspace c.auth.workspace),
    ground (arith, h, eq_iff r.workspace c.auth.workspace),
    ground (arith, h, eq_iff r.workspace c.auth.workspace),
    ground (arith, h, eq_iff r.workspace c.auth.workspace),
    ground (arith, h, eq_iff r.workspace c.auth.workspace),
  )

abbrev Same : Context → List SavedBinding → Request → MethodSpec → Principal → Pending → Type 0
Same c bs r spec q p =
    (p.request ≡ r)
    × (p.principal ≡ q)
    × (p.spec ≡ spec)
    × (spec.mutating ≡ true → lookup (principal_key r q) r.id (bindings_for c bs) ≡ none)

Same-lookup :
    (c : Context) (bs : List SavedBinding) (r : Request) (spec : MethodSpec) (q : Principal)
    (h : String) (o : Option SavedBinding) (p : Pending)
    → lookup (principal_key r q) r.id (bindings_for c bs) ≡ o
    → replay_or_wait r spec q h o ≡ waits p
    → Same c bs r spec q p
Same-lookup c bs r spec q h none p e w =
    (ground (arith, w), ground (arith, w), ground (arith, w), λ m. e)
Same-lookup c bs r spec q h (some b) p e w = absurd (ground (arith, w))

Same-hash :
    (c : Context) (bs : List SavedBinding) (r : Request) (spec : MethodSpec) (q : Principal)
    (o : Option String) (p : Pending)
    → with_hash c bs r spec q o ≡ waits p
    → Same c bs r spec q p
Same-hash c bs r spec q none p w = absurd (ground (arith, w))
Same-hash c bs r spec q (some h) p w =
    Same-lookup c bs r spec q h (lookup (principal_key r q) r.id (bindings_for c bs)) p refl w

Same-if :
    (c : Context) (bs : List SavedBinding) (r : Request) (spec : MethodSpec) (q : Principal)
    (m : Bool) (o : Option String) (p : Pending)
    → spec.mutating ≡ m
    → (if m then with_hash c bs r spec q o else pending r spec q none) ≡ waits p
    → Same c bs r spec q p
Same-if c bs r spec q true o p e w = Same-hash c bs r spec q o p w
Same-if c bs r spec q false o p e w =
    (ground (arith, w), ground (arith, w), ground (arith, w), λ m. absurd (ground (arith, e, m)))

Same-stage :
    (c : Context) (bs : List SavedBinding) (r : Request) (spec : MethodSpec) (q : Principal)
    (p : Pending)
    → bind_stage c bs r spec q ≡ waits p
    → Same c bs r spec q p
unfolding bind_stage
Same-stage c bs r spec q p w =
    Same-if c bs r spec q spec.mutating
      (c.hash_value (binding_value c.auth.sha256 r.method r.params)) p refl w

scoped-IsCovered :
    (p : Principal) (r : Request) (id : String)
    → scoped p r ≡ true
    → p.peer ≡ some id
    → IsCovered p.scopes r.method r.params
scoped-IsCovered p r id h e = allows-IsCovered p.scopes r.method r.params (
    subst
      (λ (o : Option String).
        (let gate : Bool = elim o [
          | none ↦ true
          | some i ↦ peer_scope_allows p.scopes r.method r.params
        ] in
          gate)
        ≡ true)
      e h)

module _ {G N : Type 0} (t : PeerTokenStore G N) (c : Context) (call : Call) (g : G) where
  authorized_lem :
      (r : Request) (s : State N) (p : Pending) (a : Result (MethodSpec × Principal))
      → read_request call.body ≡ ok r
      → (authorize t c call r g s.nonces).0 ≡ a
      → admitted c r a s.bindings ≡ waits p
      → IsAuthorized t c call g s p
  authorized_lem r s p (err e) reads h w = absurd (ground (arith, w))
  authorized_lem r s p (ok (spec, q)) reads h w =
      let (own_r, own_q, own_spec, unbound) = Same-stage c s.bindings r spec q p w in
      let (method, peers, authentic, workspace, role, draining, scope) =
        passes_lem t c call g r s spec q h in
      record {
        envelope = rw own_r reads;
        method = rw (own_r, own_spec) method;
        peers = peers;
        authentic = rw (own_r, own_q) authentic;
        workspace = rw own_r workspace;
        role = rw (own_q, own_spec) role;
        draining = rw own_spec draining;
        scope = λ id e.
            rw (own_r, own_q) (scoped-IsCovered q r id scope (ap (λ x. x.peer) (sym own_q) ∙ e));
        unbound = λ m. rw (own_r, own_q) (unbound (rw (← own_spec) m));
      }

  read_lem :
      (o : Result Request) (s : State N) (p : Pending)
      → read_request call.body ≡ o
      → (begin_read t c call o g s).0 ≡ waits p
      → IsAuthorized t c call g s p
  unfolding begin_read begin_request
  read_lem (err e) s p reads w = absurd (ground (arith, w))
  read_lem (ok r) s p reads w =
      authorized_lem r s p (authorize t c call r g s.nonces).0 reads refl w

  -- A call reaches its service only if its envelope is valid and its method is of the registry, its
  -- credentials authenticate the principal, the workspace is the daemon's, the principal has a role of the
  -- method, the daemon is not draining and the id is not bound where the method mutates, and, where a peer
  -- calls one of the methods that need a scope, one of its scopes covers the call: to publish, a scope to emit
  -- on the topic; to query or subscribe, for each topic of the list a scope to consume it; to acknowledge, to
  -- request or cancel an approval, and to query the lineage, a scope with that permission; and to plan,
  -- install, uninstall, update, roll back or probe a product, a scope to manage products, and one that lists
  -- the product if the parameters name it by `slug`.
  pub begin-IsAuthorized :
      (s : State N) (p : Pending) → (begin t c call g s).0 ≡ waits p → IsAuthorized t c call g s p
  unfolding begin
  begin-IsAuthorized s p w = read_lem (read_request call.body) s p refl w
