-- ===== src/Peers/Tokens/Reuse.antt =====
-- A refresh token that is presented again: the exact retry, and containment of a theft.
use latticeag_gateway.Base.{
  ℕ, String, true, not, ◌&&◌, ◌≡◌, ◌≢◌, refl, Option, none, some, arith, ◌=ₛ◌, eq_iff, ap, sym, ◌∙◌,
}
use latticeag_gateway.Base.Table.{get, put, Keyed, get-put, get-put_self, Keyed-put}
use latticeag_gateway.Base.Table.Update.{changed, get-update_where, Keyed-update_where}
use latticeag_gateway.Base.Table.Rows.{
  find_value-put_self, find_value-put_new, find_value-fits, find_value-held,
}
use latticeag_gateway.Protocol.Errors.{token_revoked, plain}
use latticeag_gateway.Exec.{ok, err}
use latticeag_gateway.Peers.Ports.{
  Store, StoredPeer, GrantRecord, ChallengeRecord, IssuedTokens, consumed, revoked,
  grant_by_access_hash, grant_by_refresh_hash,
}
use latticeag_gateway.Peers.Registry.{is_active}
use latticeag_gateway.Peers.Tokens.{
  Config, Minted, RenewParams, new_grant, replay_key, saved_result, is_ended, renew, revoke_family,
  verify_renew_proof, verify_access,
}
use latticeag_gateway.Peers.Tokens.Access.{access_ok}
use latticeag_gateway.Peers.Tokens.Renewal.{
  IsPrincipal, CanRenew, renew_rotates, rotated, issued_tokens, renew_saved, renew_reused,
}

abbrev grant_key : GrantRecord → String
grant_key g = g.grant

abbrev spent : GrantRecord → GrantRecord
spent g = record g { state = consumed }

saved_result-other :
    (first q : Option String) (t : IssuedTokens)
    → q ≢ first
    → saved_result (some (record { request_id = first; result = t })) q ≡ none
saved_result-other first none t h = refl
saved_result-other none (some id) t h = refl
saved_result-other (some x) (some id) t h = ground (arith, eq_iff x id)

grants-revoke_family :
    (family : String) (s : Store)
    → Keyed grant_key s.grants
    → (k : String)
    → get k (revoke_family family s).grants
      ≡ changed
          (λ y. y.family =ₛ family && not (is_ended y))
          (λ y. record y { state = revoked })
          (get k s.grants)
unfolding revoke_family
grants-revoke_family family s keyed k =
    get-update_where grant_key (λ y. record y { state = revoked }) (λ y. refl) _ k s.grants keyed

Keyed-revoke_family :
    (family : String) (s : Store)
    → Keyed grant_key s.grants
    → Keyed grant_key (revoke_family family s).grants
unfolding revoke_family
Keyed-revoke_family family s keyed =
    Keyed-update_where grant_key (λ y. record y { state = revoked }) (λ y. refl) _ s.grants keyed

not-active :
    (family : String) (x : GrantRecord) (o : Option GrantRecord)
    → x.family ≡ family
    → changed (λ y. y.family =ₛ family && not (is_ended y)) (λ y. record y { state = revoked }) o
      ≡ some x
    → is_active x ≡ true
    → ⊥
not-active family x none same e a = ground arith
not-active family x (some y) same e a = ground (arith, eq_iff y.family family)

-- No grant of a family that was ended authenticates.
family_ended :
    (c : Config) (s : Store)
    → Keyed grant_key s.grants
    → (family : String) (later : ℕ) (access : String) (x : GrantRecord) (q : StoredPeer)
    → (verify_access c later access (revoke_family family s)).0 ≡ ok (x, q)
    → x.family ≢ family
family_ended c s keyed family later access x q h same =
    let auth = access_ok c later access (revoke_family family s) x q h in
    let keyed' = Keyed-revoke_family family s keyed in
    let found =
      find_value-held grant_key (λ y. y.access_hash =ₛ c.sha256 access) x
        (revoke_family family s).grants keyed' (unfold grant_by_access_hash in auth.grant) in
    not-active family x (get x.grant s.grants) same
      (sym (grants-revoke_family family s keyed x.grant) ∙ found) auth.active_grant

module _ (c : Config) (now : ℕ) (m : Minted) (p : RenewParams) (s : Store) (g : GrantRecord)
    (peer : StoredPeer) (ch : ChallengeRecord) (keyed : Keyed grant_key s.grants)
    (who : IsPrincipal c p s g peer) (fresh : get m.grant s.grants ≡ none) where
  abbrev after : Store
  after = rotated c now m p s g peer ch

  held : get g.grant s.grants ≡ some g
  unfolding grant_by_refresh_hash
  held =
      find_value-held grant_key (λ x. x.refresh_hash =ₛ c.sha256 p.refresh) g s.grants keyed
        who.grant

  fits : (g.refresh_hash =ₛ c.sha256 p.refresh) ≡ true
  unfolding grant_by_refresh_hash
  fits = find_value-fits grant_key (λ x. x.refresh_hash =ₛ c.sha256 p.refresh) g s.grants who.grant

  still_fresh : get m.grant (put g.grant (spent g) s.grants) ≡ none
  still_fresh =
      ground (arith, get-put g.grant m.grant (spent g) s.grants, held, eq_iff g.grant m.grant)

  -- The old grant is found again, consumed.
  finds_spent : grant_by_refresh_hash (c.sha256 p.refresh) after ≡ some (spent g)
  unfolding grant_by_refresh_hash
  finds_spent =
      find_value-put_new grant_key (λ x. x.refresh_hash =ₛ c.sha256 p.refresh) m.grant (spent g)
        (new_grant c now m peer (some g.family)) (put g.grant (spent g) s.grants) still_fresh
        (find_value-put_self grant_key (λ x. x.refresh_hash =ₛ c.sha256 p.refresh) g (spent g)
          s.grants keyed who.grant fits)

  Keyed-after : Keyed grant_key after.grants
  Keyed-after =
      Keyed-put grant_key m.grant (new_grant c now m peer (some g.family)) _ refl
        (Keyed-put grant_key g.grant (spent g) s.grants refl keyed)

  same-IsPrincipal :
      (p' : RenewParams)
      → p'.refresh ≡ p.refresh
      → p'.peer ≡ p.peer
      → p'.epoch ≡ p.epoch
      → verify_renew_proof c p' g peer ≡ true
      → IsPrincipal c p' after (spent g) peer
  unfolding verify_renew_proof
  same-IsPrincipal p' r q e proof = record {
    grant = rw r finds_spent;
    owner = who.owner;
    own_peer = who.own_peer ∙ sym q;
    live = who.live;
    epoch = e ∙ who.epoch;
    grant_epoch = who.grant_epoch;
    proof = proof;
  }

  retry_after :
      (id : String)
      → p.request_id ≡ some id
      → (now' : ℕ) (m' : Minted) → renew c now' m' p after ≡ (ok (issued_tokens c now m), after)
  retry_after id same now' m' =
      renew_saved c now' m' p after (spent g) peer (same-IsPrincipal p refl refl refl who.proof) id
        (issued_tokens c now m) refl same
        (get-put_self _ _ s.renew_replays
          ∙ ap (λ r. some (record { request_id = r; result = issued_tokens c now m })) same)

  unsaved :
      (p' : RenewParams)
      → p'.refresh ≡ p.refresh
      → p'.request_id ≢ p.request_id
      → saved_result
          (get (replay_key (spent g) (c.sha256 p'.refresh)) after.renew_replays)
          p'.request_id
        ≡ none
  unsaved p' r other =
      rw
        (
          r,
          get-put_self (replay_key g (c.sha256 p.refresh))
              (record { request_id = p.request_id; result = issued_tokens c now m })
              s.renew_replays,
        )
        (saved_result-other p.request_id p'.request_id (issued_tokens c now m) other)

  reuse_after :
      (p' : RenewParams) (now' : ℕ) (m' : Minted)
      → p'.refresh ≡ p.refresh
      → p'.peer ≡ p.peer
      → p'.epoch ≡ p.epoch
      → verify_renew_proof c p' g peer ≡ true
      → p'.request_id ≢ p.request_id
      → (later : ℕ) (access : String) (x : GrantRecord) (q : StoredPeer)
      → let (answer, s') = renew c now' m' p' after in
        (answer ≡ err (plain token_revoked))
        × ¬ ((x.family ≡ g.family) × ((verify_access c later access s').0 ≡ ok (x, q)))
  reuse_after p' now' m' r q e proof other later access x owner =
      let eq =
        renew_reused c now' m' p' after (spent g) peer (same-IsPrincipal p' r q e proof) refl
          (unsaved p' r other) in
      rw eq
        (refl, λ both. family_ended c after Keyed-after g.family later access x owner both.1 both.0)

module _ (c : Config) (now : ℕ) (m : Minted) (p : RenewParams) (s : Store) (g : GrantRecord)
    (peer : StoredPeer) (ch : ChallengeRecord) (keyed : Keyed grant_key s.grants)
    (who : IsPrincipal c p s g peer) (can : CanRenew c now p s g peer ch)
    (fresh : get m.grant s.grants ≡ none) where
  -- After a first renewal, which is by its own unrevoked peer and minted a new grant id, in a store
  -- whose grants stand under their own ids, the exact
  -- retry under its request id returns the tokens of that renewal and changes nothing, at any time
  -- and whatever would be minted.
  pub renew_retry :
      (id : String)
      → p.request_id ≡ some id
      → (now' : ℕ) (m' : Minted)
      → let (answer, s') = renew c now m p s in renew c now' m' p s' ≡ (answer, s')
  renew_retry id same now' m' =
      rw (renew_rotates c now m p s g peer who ch can)
        (retry_after c now m p s g peer ch keyed who fresh id same now' m')

  -- After a first renewal, which is by its own unrevoked peer and minted a new grant id, in a store
  -- whose grants stand under their own ids, the reuse of
  -- the old refresh token by any other request of the peer with a valid proof is refused as
  -- TOKEN_REVOKED and ends the family: no access token, the one just issued included, authenticates
  -- for a grant of that family then.
  pub reuse_ends_family :
      (p' : RenewParams) (now' : ℕ) (m' : Minted)
      → p'.refresh ≡ p.refresh
      → p'.peer ≡ p.peer
      → p'.epoch ≡ p.epoch
      → verify_renew_proof c p' g peer ≡ true
      → p'.request_id ≢ p.request_id
      → (later : ℕ) (access : String) (x : GrantRecord) (q : StoredPeer)
      → let (answer, s') = renew c now' m' p' (renew c now m p s).1 in
        (answer ≡ err (plain token_revoked))
        × ¬ ((x.family ≡ g.family) × ((verify_access c later access s').0 ≡ ok (x, q)))
  reuse_ends_family p' now' m' r q e proof other later access x owner =
      rw (renew_rotates c now m p s g peer who ch can) (
        reuse_after c now m p s g peer ch keyed who fresh p' now' m' r q e proof other later access
          x owner)
