-- ===== src/Peers/Tokens.antt =====
-- packages/core/src/v2/peers/tokens.ts: grants, access tokens and the rotation of refresh tokens.
-- Hashing and signatures rest on node:crypto and are parameters.
pub mod Access
pub mod Renewal
pub mod Reuse
use Prim.Native.String
use latticeag_gateway.Base.{
  ℕ, ◌+◌, ◌*◌, String, Bool, true, false, not, ◌&&◌, ◌||◌, Option, none, some, List, [], ◌∷◌, ◌=ₛ◌,
  ◌==◌, leb, if◌then◌else◌,
}
use latticeag_gateway.Base.Table.{get, put, update_where}
use latticeag_gateway.Protocol.Errors.{auth_required, token_revoked, token_expired, plain, at}
use latticeag_gateway.Exec.{
  Result, ok, Exec, pure, throw, or_throw, gets, ◌>>=◌, ◌>>◌, throw_if, modify, when,
}
use latticeag_gateway.Peers.Ports.{
  Store, StoredPeer, GrantRecord, GrantState, ChallengeRecord, IssuedTokens, RenewReplay, active,
  consumed, revoked, grant_by_access_hash, grant_by_refresh_hash,
}
use latticeag_gateway.Peers.Registry.{is_active, is_revoked, revoke_grants}

-- The body of renewBody in packages/core/src/v2/crypto/pairing.ts.
pub record RenewBody : Type 0 where
  pub gateway : String
  pub workspace : String
  pub epoch : String
  pub peer : String
  pub refresh_hash : String
  pub challenge : String
  pub server_nonce : String

pub record Config : Type 0 where
  pub gateway : String
  pub workspace : String
  pub epoch : String
  pub access_ttl_s : ℕ
  pub refresh_ttl_s : ℕ
  -- sha256Hex
  pub sha256 : String → String
  -- verifyRenew: the body, the proof, the public key
  pub verify_renew : RenewBody → String → String → Bool

-- `ttl ?? fallback`, for the lifetimes that the constructor puts into its configuration.
abbrev pub or_default : Option ℕ → ℕ → ℕ
or_default none fallback = fallback
or_default (some ttl) fallback = ttl

-- What the random source and the allocator give to one call of `issue`.
pub record Minted : Type 0 where
  pub access : String
  pub refresh : String
  pub grant : String
  pub family : String

-- `family` is given when the grant rotates.
abbrev pub new_grant : Config → ℕ → Minted → StoredPeer → Option String → GrantRecord
new_grant c now m peer family = record {
  grant = m.grant;
  family = elim family [ none ↦ m.family | some f ↦ f ];
  peer = peer.id;
  instance_id = c.gateway;
  workspace = c.workspace;
  key_hash = peer.key;
  role = peer.role;
  scopes = peer.scopes;
  grant_revision = peer.grant_revision;
  epoch = c.epoch;
  access_hash = c.sha256 m.access;
  refresh_hash = c.sha256 m.refresh;
  access_expires_ms = now + c.access_ttl_s * 1000;
  refresh_expires_ms = now + c.refresh_ttl_s * 1000;
  state = active;
  created_ms = now;
}

abbrev pub put_grant : GrantRecord → Exec Store (Unit {0})
put_grant g = modify (λ s. record s { grants = put g.grant g s.grants })

unfoldable pub issue : Config → ℕ → Minted → StoredPeer → Option String → Exec Store IssuedTokens
issue c now m peer family = do
  let g = new_grant c now m peer family
  put_grant g
  pure (record { access = m.access; refresh = m.refresh; expires_ms = g.access_expires_ms })

unfoldable pub verify_access : Config → ℕ → String → Exec Store (GrantRecord × StoredPeer)
verify_access c now access = do
  found ← gets (λ s. grant_by_access_hash (c.sha256 access) s)
  g ← or_throw found (plain auth_required)
  throw_if (not (is_active g)) (plain token_revoked)
  owner ← gets (λ s. get g.peer s.peers)
  peer ← or_throw owner (plain auth_required)
  throw_if (is_revoked peer || not (g.grant_revision == peer.grant_revision)) (plain token_revoked)
  throw_if (not (g.epoch =ₛ c.epoch)) (plain token_expired)
  throw_if (leb g.access_expires_ms now) (plain token_expired)
  pure (g, peer)

pub record RenewParams : Type 0 where
  pub peer : String
  pub refresh : String
  pub epoch : String
  pub challenge : String
  pub server_nonce : String
  pub proof : String
  pub request_id : Option String

unfoldable pub verify_renew_proof : Config → RenewParams → GrantRecord → StoredPeer → Bool
verify_renew_proof c p g peer =
    c.verify_renew
      (record {
        gateway = c.gateway;
        workspace = c.workspace;
        epoch = p.epoch;
        peer = p.peer;
        refresh_hash = g.refresh_hash;
        challenge = p.challenge;
        server_nonce = p.server_nonce;
      })
      p.proof peer.key_material.public

abbrev pub is_spent : GrantRecord → Bool
is_spent g = elim g.state [ consumed ↦ true | _ ↦ false ]

abbrev pub is_ended : GrantRecord → Bool
is_ended g = elim g.state [ revoked ↦ true | _ ↦ false ]

-- `for (const grant of grantsByFamily(family)) if (grant.state !== "REVOKED") …`
unfoldable pub revoke_family : String → Store → Store
revoke_family family s = record s {
  grants =
      update_where (λ g. g.grant) (λ g. g.family =ₛ family && not (is_ended g))
        (λ g. record g { state = revoked }) s.grants;
}

-- The method `revokePeer`, the loop that revocation runs too.
unfoldable pub revoke_peer : String → Store → Store
revoke_peer peer s = revoke_grants peer s

-- `${grant.peer}:${refreshHash}`
abbrev pub replay_key : GrantRecord → String → String
replay_key g hash = String.◌++◌ g.peer (String.◌++◌ ":" hash)

abbrev pub saved_result : Option RenewReplay → Option String → Option IssuedTokens
saved_result none request_id = none
saved_result (some r) none = none
saved_result (some r) (some id) = elim r.request_id [
  | none ↦ none
  | some first ↦ if first =ₛ id then some r.result else none
]

-- A consumed grant: the original request gets its result again, any other ends the family.
unfoldable pub replay_or_revoke :
    Config → RenewParams → GrantRecord → StoredPeer → String → Exec Store IssuedTokens
replay_or_revoke c p g peer hash = do
  throw_if (not (verify_renew_proof c p g peer)) (at auth_required "proof")
  saved ← gets (λ s. saved_result (get (replay_key g hash) s.renew_replays) p.request_id)
  elim saved [
    | some result ↦ pure result
    | none ↦ do modify (revoke_family g.family); throw (plain token_revoked)
  ]

-- `ch.server_nonce !== … || ch.key_id !== peer.key`
unfoldable pub renew_challenge : Config → ℕ → RenewParams → StoredPeer → Exec Store ChallengeRecord
renew_challenge c now p peer = do
  found ← gets (λ s. get p.challenge s.challenges)
  ch ← or_throw found (at auth_required "challenge")
  throw_if (not (ch.epoch =ₛ c.epoch)) (at auth_required "challenge")
  throw_if ch.consumed (at auth_required "challenge")
  throw_if (leb ch.expires_ms now) (at auth_required "challenge")
  throw_if (not (ch.server_nonce =ₛ p.server_nonce) || not (ch.key_id =ₛ peer.key))
      (at auth_required "challenge")
  pure ch

-- The commit: the challenge and the old grant are consumed, and a new pair is issued.
unfoldable pub rotate :
    Config
    → ℕ
    → Minted
    → RenewParams
    → GrantRecord
    → StoredPeer
    → ChallengeRecord
    → String
    → Exec Store IssuedTokens
unfolding issue
rotate c now m p g peer ch hash = do
  modify
      (λ s. record s { challenges = put ch.challenge (record ch { consumed = true }) s.challenges })
  put_grant (record g { state = consumed })
  issued ← issue c now m peer (some g.family)
  modify (λ s. record s {
    renew_replays =
        put (replay_key g hash) (record { request_id = p.request_id; result = issued })
          s.renew_replays;
  })
  pure issued

unfoldable pub renew : Config → ℕ → Minted → RenewParams → Exec Store IssuedTokens
renew c now m p = do
  let hash = c.sha256 p.refresh
  found ← gets (λ s. grant_by_refresh_hash hash s)
  g ← or_throw found (plain auth_required)
  throw_if (not (g.peer =ₛ p.peer)) (at auth_required "peer")
  owner ← gets (λ s. get g.peer s.peers)
  peer ← or_throw owner (plain auth_required)
  throw_if (is_revoked peer) (plain token_revoked)
  throw_if (not (p.epoch =ₛ c.epoch) || not (g.epoch =ₛ c.epoch)) (at auth_required "epoch")
  if is_spent g then replay_or_revoke c p g peer hash else do
    throw_if (is_ended g) (plain token_revoked)
    throw_if (not (g.grant_revision == peer.grant_revision)) (plain token_revoked)
    throw_if (leb g.refresh_expires_ms now) (plain token_expired)
    ch ← renew_challenge c now p peer
    throw_if (not (verify_renew_proof c p g peer)) (at auth_required "proof")
    rotate c now m p g peer ch hash
