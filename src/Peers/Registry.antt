-- ===== src/Peers/Registry.antt =====
-- packages/core/src/v2/peers/registry.ts: the peer registry.
pub mod Revocation
use Prim.Native.String.{compare}
use text.Mathlib.Text.{is_lt}
use latticeag_gateway.Base.{
  ℕ, ◌+◌, String, Bool, true, false, not, ◌&&◌, ◌||◌, Option, none, some, List, [], ◌∷◌, ◌=ₛ◌, ◌==◌,
  ltb, if◌then◌else◌, length, take, map,
}
use latticeag_gateway.Base.Sort.{sort}
use latticeag_gateway.Base.Page.{page_of}
use latticeag_gateway.Base.Table.{get, put, values, update_where}
use latticeag_gateway.Protocol.Errors.{
  schema_invalid, not_found, cursor_gone, state_transition, token_revoked, plain, at,
}
use latticeag_gateway.Protocol.Peers.{
  Scope, Capability, KeyMaterial, PeerState, registered, connected, disconnected, Tier,
}
use latticeag_gateway.Protocol.Peers
use latticeag_gateway.Exec.{ok, Exec, pure, or_throw, gets, ◌>>=◌, ◌>>◌, throw_if, modify, when}
use latticeag_gateway.Peers.Ports
use latticeag_gateway.Peers.Ports.{
  StoredPeer, GrantRecord, active, SessionRecord, open_session, closed_session, DeliveryRecord,
  queued, dropped, Store,
}

abbrev pub same_state : PeerState → PeerState → Bool
same_state registered registered = true
same_state connected connected = true
same_state disconnected disconnected = true
same_state PeerState.revoked PeerState.revoked = true
same_state _ _ = false

-- `allowed[from].includes(to)`
abbrev pub allowed : PeerState → PeerState → Bool
allowed registered connected = true
allowed registered disconnected = true
allowed registered PeerState.revoked = true
allowed connected disconnected = true
allowed connected PeerState.revoked = true
allowed disconnected connected = true
allowed disconnected PeerState.revoked = true
allowed _ _ = false

abbrev pub is_active : GrantRecord → Bool
is_active g = elim g.state [ active ↦ true | _ ↦ false ]

abbrev pub is_open : SessionRecord → Bool
is_open x = elim x.state [ open_session ↦ true | closed_session ↦ false ]

abbrev pub is_queued : DeliveryRecord → Bool
is_queued d = elim d.state [ queued ↦ true | _ ↦ false ]

pub record RegisterParams : Type 0 where
  pub key_material : KeyMaterial
  pub role : Tier
  pub scopes : List Scope
  pub capabilities : List Capability

-- `source` is what the allocator would mint; a key that has a source keeps it.
unfoldable pub register_peer : String → ℕ → String → String → RegisterParams → Exec Store StoredPeer
register_peer epoch now new_source id p = do
  let key = p.key_material.id
  known ← gets (λ s. get key s.sources)
  let source : String = elim known [ none ↦ new_source | some x ↦ x ]
  modify (λ s. elim known [ none ↦ record s { sources = put key source s.sources } | some x ↦ s ])
  let r : StoredPeer = record {
    id = id;
    source = source;
    key = key;
    role = p.role;
    scopes = p.scopes;
    capabilities = p.capabilities;
    state = registered;
    grant_revision = 1;
    key_material = p.key_material;
    epoch = epoch;
    registered_ms = now;
  }
  modify (λ s. record s { peers = put id r s.peers })
  pure r

-- `PeerRegistry.view`
pub record Peer : Type 0 where
  pub id : String
  pub source : String
  pub key : String
  pub role : Tier
  pub scopes : List Scope
  pub capabilities : List Capability
  pub state : PeerState
  pub grant_revision : ℕ

unfoldable pub view : StoredPeer → Peer
view r = record {
  id = r.id;
  source = r.source;
  key = r.key;
  role = r.role;
  scopes = r.scopes;
  capabilities = r.capabilities;
  state = r.state;
  grant_revision = r.grant_revision;
}

unfoldable pub get_peer : String → Exec Store StoredPeer
get_peer peer = do found ← gets (λ s. get peer s.peers); or_throw found (at not_found "peer")

abbrev pub update_peer : StoredPeer → Exec Store (Unit {0})
update_peer r = modify (λ s. record s { peers = put r.id r s.peers })

unfoldable pub transition : StoredPeer → PeerState → Exec Store StoredPeer
transition r to = do
  throw_if (not (same_state r.state to) && not (allowed r.state to)) (at state_transition "peer")
  update_peer (record r { state = to })
  pure (record r { state = to })

unfoldable pub mark_native_connected : String → Exec Store Peer
unfolding get_peer transition view
mark_native_connected peer = do r ← get_peer peer; r' ← transition r connected; pure (view r')

-- `for (const s of sessionsByPeer(peer)) if (s.state === "OPEN") …`
unfoldable pub close_sessions : String → Store → Store
close_sessions peer s = record s {
  sessions =
      update_where (λ x. x.session) (λ x. x.peer =ₛ peer && is_open x)
        (λ x. record x { state = closed_session }) s.sessions;
}

unfoldable pub drop_deliveries : String → Store → Store
drop_deliveries peer s = record s {
  deliveries =
      update_where (λ d. d.delivery) (λ d. d.peer =ₛ peer && is_queued d)
        (λ d. record d { state = dropped }) s.deliveries;
}

-- `for (const grant of grantsByPeer(peer)) if (grant.state === "ACTIVE") …`
unfoldable pub revoke_grants : String → Store → Store
revoke_grants peer s = record s {
  grants =
      update_where (λ g. g.grant) (λ g. g.peer =ₛ peer && is_active g)
        (λ g. record g { state = Ports.revoked }) s.grants;
}

abbrev pub is_revoked : StoredPeer → Bool
is_revoked r = same_state r.state Peers.revoked

-- The answer is the peer's id and grant revision; its state is always REVOKED.
unfoldable pub revoke : String → Exec Store (String × ℕ)
unfolding get_peer
revoke peer = do
  r ← get_peer peer
  let r' : StoredPeer = record r { state = Peers.revoked; grant_revision = r.grant_revision + 1 }
  when (not (is_revoked r)) do
    update_peer r'
    modify (revoke_grants r.id)
    modify (close_sessions r.id)
    modify (drop_deliveries r.id)
  pure (r.id, if is_revoked r then r.grant_revision else r'.grant_revision)

unfoldable pub disconnect : String → Exec Store String
unfolding get_peer transition
disconnect peer = do
  r ← get_peer peer
  r' ← transition r disconnected
  modify (close_sessions r.id)
  pure r.id

unfoldable pub open_peer_session :
    ℕ → String → String → String → Option String → Exec Store SessionRecord
unfolding get_peer
open_peer_session now id peer kind cursor = do
  r ← get_peer peer
  throw_if (is_revoked r) (plain token_revoked)
  let x : SessionRecord = record {
    session = id;
    peer = r.id;
    kind = kind;
    state = open_session;
    opened_ms = now;
    cursor = cursor;
  }
  modify (λ s. record s { sessions = put id x s.sessions })
  pure x

-- `peer === null || peer.state === "REVOKED"`
abbrev pub is_gone : Option StoredPeer → Bool
is_gone none = true
is_gone (some r) = is_revoked r

unfoldable pub resume_session : String → Exec Store SessionRecord
resume_session session = do
  found ← gets (λ s. get session s.sessions)
  x ← or_throw found (at not_found "session")
  peer ← gets (λ s. get x.peer s.peers)
  throw_if (is_gone peer || not (is_open x)) (plain token_revoked)
  pure x

pub record PeerPage : Type 0 where
  pub items : List Peer
  pub next : Option String

-- `a.registered_ms - b.registered_ms || (a.id < b.id ? -1 : 1)`, as "a stands before b".
abbrev pub earlier : StoredPeer → StoredPeer → Bool
earlier a b =
    ltb a.registered_ms b.registered_ms
    || (a.registered_ms == b.registered_ms && is_lt (compare a.id b.id))

unfoldable pub list_peers : Option String → ℕ → Exec Store PeerPage
unfolding view
list_peers after limit = do
  throw_if (ltb limit 1 || ltb 200 limit) (at schema_invalid "limit")
  all ← gets (λ s. sort earlier (values s.peers))
  page ← or_throw (page_of (λ r. r.id) after limit all) (at cursor_gone "after")
  pure (record { items = map view page.0; next = page.1 })
