-- ===== src/Peers/Registry/Revocation.antt =====
-- agent.revoke: what it writes, and what is refused behind it.
use latticeag_gateway.Base.{
  ℕ, ◌+◌, String, false, ◌≡◌, refl, Option, some, arith, ◌=ₛ◌, ◌&&◌, if◌then◌else◌, eq_iff, eq_refl,
}
use latticeag_gateway.Base.Table.{get, put, Keyed, get-Keyed, get-put}
use latticeag_gateway.Base.Table.Update.{changed, get-update_where}
use latticeag_gateway.Protocol.Errors.{token_revoked, plain}
use latticeag_gateway.Protocol.Peers
use latticeag_gateway.Exec.{ok, err}
use latticeag_gateway.Peers.Ports
use latticeag_gateway.Peers.Ports.{
  StoredPeer, GrantRecord, active, SessionRecord, open_session, closed_session, DeliveryRecord,
  queued, dropped, Store,
}
use latticeag_gateway.Peers.Registry.{
  is_active, is_open, is_queued, is_revoked, revoke, revoke_grants, close_sessions, drop_deliveries,
  resume_session, open_peer_session, get_peer,
}

-- Every row of the store stands under its own id.
pub record IsKeyed (s : Store) : Type 0 where
  pub peers : Keyed (λ r. r.id) s.peers
  pub grants : Keyed (λ g. g.grant) s.grants
  pub sessions : Keyed (λ x. x.session) s.sessions
  pub deliveries : Keyed (λ d. d.delivery) s.deliveries

abbrev pub revoked_peer : StoredPeer → StoredPeer
revoked_peer r = record r { state = Peers.revoked; grant_revision = r.grant_revision + 1 }

module _ (peer : String) (s : Store) (r : StoredPeer) (found : get peer s.peers ≡ some r)
    (live : is_revoked r ≡ false) where
  pub revoke_store : revoke peer s ≡ (
    ok (r.id, r.grant_revision + 1),
    drop_deliveries r.id (
        close_sessions r.id
          (revoke_grants r.id (record s { peers = put r.id (revoked_peer r) s.peers }))),
  )
  unfolding revoke
  revoke_store = ground arith

-- In a store whose rows stand under their own ids, revoking a peer that is not revoked yet commits the state REVOKED at the next grant revision, ends
-- each of its ACTIVE grants, closes each of its OPEN sessions and drops each of its QUEUED
-- deliveries; every other row stays as it was.
pub revoke_closes_all :
    (peer : String) (s : Store) (r : StoredPeer)
    → IsKeyed s
    → get peer s.peers ≡ some r
    → is_revoked r ≡ false
    → (k : String)
    → let s' = (revoke peer s).1 in
      (get k s'.peers ≡ (if peer =ₛ k then some (revoked_peer r) else get k s.peers))
      × (get k s'.grants
          ≡ changed
              (λ g. g.peer =ₛ peer && is_active g)
              (λ g. record g { state = Ports.revoked })
              (get k s.grants))
      × (get k s'.sessions
          ≡ changed
              (λ x. x.peer =ₛ peer && is_open x)
              (λ x. record x { state = closed_session })
              (get k s.sessions))
      × (get k s'.deliveries
          ≡ changed
              (λ d. d.peer =ₛ peer && is_queued d)
              (λ d. record d { state = dropped })
              (get k s.deliveries))
unfolding drop_deliveries close_sessions revoke_grants
revoke_closes_all peer s r keyed found live k =
    let own = get-Keyed (λ x. x.id) peer s.peers r keyed.peers found in
    rw (revoke_store peer s r found live, own)
      (
        get-put peer k _ s.peers,
        get-update_where (λ g. g.grant) _ (λ g. refl) _ k s.grants keyed.grants,
        get-update_where (λ x. x.session) _ (λ x. refl) _ k s.sessions keyed.sessions,
        get-update_where (λ d. d.delivery) _ (λ d. refl) _ k s.deliveries keyed.deliveries,
      )

-- In a store whose rows stand under their own ids, the revocation of a peer that was not revoked yet
-- lets nothing of it come back: none of its sessions resumes and none opens.
pub revoked_sessions_refused :
    (peer : String) (s : Store) (r : StoredPeer) (session : String) (x : SessionRecord)
    → IsKeyed s
    → get peer s.peers ≡ some r
    → is_revoked r ≡ false
    → get session s.sessions ≡ some x
    → x.peer ≡ peer
    → (now : ℕ) (id kind : String) (cursor : Option String)
    → let s' = (revoke peer s).1 in
      (resume_session session s' ≡ (err (plain token_revoked), s'))
      × (open_peer_session now id peer kind cursor s' ≡ (err (plain token_revoked), s'))
unfolding resume_session open_peer_session get_peer
revoked_sessions_refused peer s r session x keyed found live has own now id kind cursor =
    let closed = (revoke_closes_all peer s r keyed found live session).2 in
    let there = (revoke_closes_all peer s r keyed found live peer).0 in
    (
      ground (arith, closed, there, eq_refl peer, eq_iff x.peer peer),
      ground (arith, there, eq_refl peer),
    )
