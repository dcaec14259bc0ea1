-- ===== src/Daemon/Auth/Tokens.antt =====
-- The two stores of peers' tokens: InMemoryPeerTokenStore of packages/gateway-daemon/src/rpc/auth.ts and
-- DurablePeerTokenStore of packages/gateway-daemon/src/adapters/store-ports.ts, over the rows of the peers.
use latticeag_gateway.Base.{
  ℕ, ◌<◌, String, Bool, true, false, not, ◌||◌, ◌≡◌, inl, inr, Option, none, some, [], ◌∷◌, arith,
  eq_iff, ◌=ₛ◌, leb, ltb, if◌then◌else◌, any, Bool-cases,
}
use latticeag_gateway.Base.Table.{Table, get, put, get-put, get-put_self}
use latticeag_gateway.Protocol.Peers.{PeerState}
use latticeag_gateway.Peers.Ports.{Store, StoredPeer, GrantRecord, GrantState, grant_by_access_hash}
use latticeag_gateway.Peers.Proofs.{nonce_key}
use latticeag_gateway.Daemon.Auth.{PeerGrant, PeerTokenStore}

-- `for (const [n, until] of set) if (until <= now) set.delete(n)`
unfoldable pub unexpired : ℕ → Table ℕ → Table ℕ
unexpired now [] = []
unexpired now ((n, until) ∷ t) =
    let rest = unexpired now t in if leb until now then rest else (n, until) ∷ rest

abbrev pub or_empty : Option (Table ℕ) → Table ℕ
or_empty none = []
or_empty (some t) = t

-- The set of a peer behind the look for a nonce.
unfoldable pub note_nonce : String → ℕ → Option ℕ → Table ℕ → Bool × Table ℕ
note_nonce nonce until (some u) set = (true, set)
note_nonce nonce until none set = (false, put nonce until set)

unfoldable pub nonce_seen : ℕ → String → String → ℕ → Table (Table ℕ) → Bool × Table (Table ℕ)
unfolding unexpired note_nonce
nonce_seen now peer nonce until s =
    let set = unexpired now (or_empty (get peer s)) in
    let (seen, set') = note_nonce nonce until (get nonce set) set in (seen, put peer set' s)

unfoldable pub in_memory : PeerTokenStore (Table PeerGrant) (Table (Table ℕ))
unfolding nonce_seen
in_memory = record { lookup_access = λ hash grants. get hash grants; nonce_seen = nonce_seen }

abbrev pub is_active : GrantState → Bool
is_active GrantState.active = true
is_active _ = false

abbrev pub is_revoked : PeerState → Bool
is_revoked PeerState.revoked = true
is_revoked _ = false

abbrev pub grant_of : GrantRecord → Option StoredPeer → Option PeerGrant
grant_of g none = none
grant_of g (some p) = some (record {
  peer = g.peer;
  public_key = p.key_material.public;
  role = g.role;
  scopes = g.scopes;
  expires_ms = g.access_expires_ms;
  revoked = not (is_active g.state) || is_revoked p.state;
  epoch = g.epoch;
  reviewer = any (λ c. c.name =ₛ "reviewer" || c.name =ₛ "approvals.review") p.capabilities;
})

abbrev pub peer_grant : Store → Option GrantRecord → Option PeerGrant
peer_grant s none = none
peer_grant s (some g) = grant_of g (get g.peer s.peers)

unfoldable pub lookup_access : String → Store → Option PeerGrant
lookup_access hash s = peer_grant s (grant_by_access_hash hash s)

abbrev pub lasts : ℕ → Option ℕ → Bool
lasts now none = false
lasts now (some expires_ms) = ltb now expires_ms

-- `hasNonce`
unfoldable pub has_nonce : ℕ → String → String → Table ℕ → Bool
has_nonce now token_hash nonce s = lasts now (get (nonce_key token_hash nonce) s)

unfoldable pub durable_nonce_seen : ℕ → String → String → ℕ → Table ℕ → Bool × Table ℕ
unfolding has_nonce
durable_nonce_seen now peer nonce until s =
    if has_nonce now peer nonce s then (true, s) else (false, put (nonce_key peer nonce) until s)

unfoldable pub durable : PeerTokenStore Store (Table ℕ)
unfolding lookup_access durable_nonce_seen
durable = record { lookup_access = lookup_access; nonce_seen = durable_nonce_seen }

-- What the authentication needs of a store: a nonce that was recorded until a time is refused before it.
pub record Remembers {G N : Type 0} (t : PeerTokenStore G N) : Type 1 where
  pub Holds : String → String → ℕ → N → Type 0
  pub records :
      (now : ℕ) (p n : String) (u : ℕ) (s : N)
      → (t.nonce_seen now p n u s).0 ≡ false
      → Holds p n u (t.nonce_seen now p n u s).1
  pub keeps :
      (now : ℕ) (q m : String) (v : ℕ) (p n : String) (u : ℕ) (s : N)
      → now < u
      → Holds p n u s
      → Holds p n u (t.nonce_seen now q m v s).1
  pub refuses :
      (now : ℕ) (p n : String) (v u : ℕ) (s : N)
      → now < u
      → Holds p n u s
      → (t.nonce_seen now p n v s).0 ≡ true

abbrev Stored : String → String → ℕ → Table ℕ → Type 0
Stored p n u s = get (nonce_key p n) s ≡ some u

durable-records :
    (now : ℕ) (p n : String) (u : ℕ) (s : Table ℕ)
    → (durable_nonce_seen now p n u s).0 ≡ false
    → Stored p n u (durable_nonce_seen now p n u s).1
unfolding durable_nonce_seen
durable-records now p n u s h = elim (Bool-cases (has_nonce now p n s)) [
  | inl old ↦ absurd (ground (arith, h, old))
  | inr new ↦ rw new (get-put_self (nonce_key p n) u s)
]

durable-keeps :
    (now : ℕ) (q m : String) (v : ℕ) (p n : String) (u : ℕ) (s : Table ℕ)
    → now < u
    → Stored p n u s
    → Stored p n u (durable_nonce_seen now q m v s).1
unfolding durable_nonce_seen has_nonce
durable-keeps now q m v p n u s early h = ground (
  arith,
  early,
  h,
  get-put (nonce_key q m) (nonce_key p n) v s,
  eq_iff (nonce_key q m) (nonce_key p n),
)

durable-refuses :
    (now : ℕ) (p n : String) (v u : ℕ) (s : Table ℕ)
    → now < u
    → Stored p n u s
    → (durable_nonce_seen now p n v s).0 ≡ true
unfolding durable_nonce_seen has_nonce
durable-refuses now p n v u s early h = ground (arith, early, h)

pub durable-Remembers : Remembers durable
unfolding durable
durable-Remembers = record {
  Holds = Stored;
  records = durable-records;
  keeps = durable-keeps;
  refuses = durable-refuses;
}
