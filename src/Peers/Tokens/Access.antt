-- ===== src/Peers/Tokens/Access.antt =====
-- When an access token authenticates.
use latticeag_gateway.Base.{ℕ, String, true, false, ◌≡◌, ◌↔◌, some, eq_iff, arith, leb, ap}
use latticeag_gateway.Base.Table.{get}
use latticeag_gateway.Exec.{ok}
use latticeag_gateway.Peers.Ports.{Store, StoredPeer, GrantRecord, grant_by_access_hash}
use latticeag_gateway.Peers.Registry.{is_active, is_revoked}
use latticeag_gateway.Peers.Tokens.{Config, verify_access}

pub record Authenticates (c : Config) (now : ℕ) (access : String) (s : Store) (g : GrantRecord)
    (peer : StoredPeer) : Type 0 where
  pub grant : grant_by_access_hash (c.sha256 access) s ≡ some g
  pub active_grant : is_active g ≡ true
  pub owner : get g.peer s.peers ≡ some peer
  pub live : is_revoked peer ≡ false
  pub revision : g.grant_revision ≡ peer.grant_revision
  pub epoch : g.epoch ≡ c.epoch
  pub in_time : leb g.access_expires_ms now ≡ false

module _ (c : Config) (now : ℕ) (access : String) (s : Store) (g : GrantRecord)
    (peer : StoredPeer) where
  pub access_ok :
      (verify_access c now access s).0 ≡ ok (g, peer) → Authenticates c now access s g peer
  unfolding verify_access
  access_ok h = ground (arith, eq_iff g.epoch c.epoch)

  access_done :
      Authenticates c now access s g peer → verify_access c now access s ≡ (ok (g, peer), s)
  unfolding verify_access
  access_done a = ground (arith, eq_iff g.epoch c.epoch)

  -- An access token authenticates a grant and its peer exactly when the grant is the one stored
  -- under its hash and is active, the peer is there and not revoked, the grant has the peer's
  -- revision and the daemon's epoch, and the clock is before its expiry; the store is not touched.
  pub access_exact :
      (verify_access c now access s ≡ (ok (g, peer), s)) ↔ Authenticates c now access s g peer
  access_exact = (λ h. access_ok (ap (λ o. o.0) h), access_done)
