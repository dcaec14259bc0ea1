-- ===== src/Peers/Tokens/Renewal.antt =====
-- What a renewal needs and writes, its replay, and the reuse of a refresh token.
use latticeag_gateway.Base.{
  ℕ, ◌+◌, ◌*◌, String, true, false, ◌≡◌, refl, none, some, arith, eq_iff, eq_refl, leb,
}
use latticeag_gateway.Base.Table.{get, put}
use latticeag_gateway.Protocol.Errors.{token_revoked, plain}
use latticeag_gateway.Exec.{ok, err}
use latticeag_gateway.Peers.Ports.{
  Store, StoredPeer, GrantRecord, ChallengeRecord, IssuedTokens, active, consumed,
  grant_by_refresh_hash,
}
use latticeag_gateway.Peers.Registry.{is_revoked}
use latticeag_gateway.Peers.Tokens.{
  Config, Minted, RenewParams, new_grant, replay_key, saved_result, renew, rotate, renew_challenge,
  replay_or_revoke, revoke_family, verify_renew_proof,
}

-- What the principal of a renewal must meet, whatever the state of its grant.
pub record IsPrincipal (c : Config) (p : RenewParams) (s : Store) (g : GrantRecord)
    (peer : StoredPeer) : Type 0 where
  pub grant : grant_by_refresh_hash (c.sha256 p.refresh) s ≡ some g
  pub owner : get g.peer s.peers ≡ some peer
  pub own_peer : g.peer ≡ p.peer
  pub live : is_revoked peer ≡ false
  pub epoch : p.epoch ≡ c.epoch
  pub grant_epoch : g.epoch ≡ c.epoch
  pub proof : verify_renew_proof c p g peer ≡ true

-- What a first renewal needs besides.
pub record CanRenew (c : Config) (now : ℕ) (p : RenewParams) (s : Store) (g : GrantRecord)
    (peer : StoredPeer) (ch : ChallengeRecord) : Type 0 where
  pub state : g.state ≡ active
  pub revision : g.grant_revision ≡ peer.grant_revision
  pub in_time : leb g.refresh_expires_ms now ≡ false
  pub challenge : get p.challenge s.challenges ≡ some ch
  pub challenge_epoch : ch.epoch ≡ c.epoch
  pub unconsumed : ch.consumed ≡ false
  pub fresh : leb ch.expires_ms now ≡ false
  pub nonce : ch.server_nonce ≡ p.server_nonce
  pub key : ch.key_id ≡ peer.key

abbrev pub issued_tokens : Config → ℕ → Minted → IssuedTokens
issued_tokens c now m = record {
  access = m.access;
  refresh = m.refresh;
  expires_ms = now + c.access_ttl_s * 1000;
}

module _ (c : Config) (now : ℕ) (m : Minted) (p : RenewParams) (s : Store) (g : GrantRecord)
    (peer : StoredPeer) where
  abbrev pub rotated : ChallengeRecord → Store
  rotated ch = record s {
    challenges = put ch.challenge (record ch { consumed = true }) s.challenges;
    grants =
        put m.grant (new_grant c now m peer (some g.family))
          (put g.grant (record g { state = consumed }) s.grants);
    renew_replays =
        put (replay_key g (c.sha256 p.refresh))
          (record { request_id = p.request_id; result = issued_tokens c now m }) s.renew_replays;
  }

  rotate_store :
      (ch : ChallengeRecord)
      → rotate c now m p g peer ch (c.sha256 p.refresh) s ≡ (ok (issued_tokens c now m), rotated ch)
  unfolding rotate
  rotate_store ch = refl

  module _ (who : IsPrincipal c p s g peer) where
    -- A renewal of an active grant that is in time, by its own unrevoked peer, with a live challenge
    -- and a valid proof, consumes the challenge and the grant and issues a new pair of the same family.
    pub renew_rotates :
        (ch : ChallengeRecord)
        → CanRenew c now p s g peer ch
        → renew c now m p s ≡ (ok (issued_tokens c now m), rotated ch)
    unfolding renew renew_challenge
    renew_rotates ch can = ground (
      arith,
      rotate_store ch,
      eq_iff g.peer p.peer,
      eq_iff g.epoch c.epoch,
      eq_iff p.epoch c.epoch,
      eq_iff ch.epoch c.epoch,
      eq_iff ch.server_nonce p.server_nonce,
      eq_iff ch.key_id peer.key,
    )

    -- A consumed grant whose replay is saved under this very request.
    pub renew_saved :
        (id : String) (t : IssuedTokens)
        → g.state ≡ consumed
        → p.request_id ≡ some id
        → get (replay_key g (c.sha256 p.refresh)) s.renew_replays
          ≡ some (record { request_id = some id; result = t })
        → renew c now m p s ≡ (ok t, s)
    unfolding renew replay_or_revoke
    renew_saved id t spent same saved =
        ground
          (arith, eq_iff g.peer p.peer, eq_iff g.epoch c.epoch, eq_iff p.epoch c.epoch, eq_refl id)

    -- A consumed grant without a saved result for this request.
    pub renew_reused :
        g.state ≡ consumed
        → saved_result (get (replay_key g (c.sha256 p.refresh)) s.renew_replays) p.request_id ≡ none
        → renew c now m p s ≡ (err (plain token_revoked), revoke_family g.family s)
    unfolding renew replay_or_revoke
    renew_reused spent unsaved =
        ground (arith, eq_iff g.peer p.peer, eq_iff g.epoch c.epoch, eq_iff p.epoch c.epoch)
