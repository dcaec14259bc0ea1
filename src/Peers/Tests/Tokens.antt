-- ===== src/Peers/Tests/Tokens.antt =====
-- One peer with a grant, a session and a delivery: its tokens and its revocation.
use latticeag_gateway.Base.{
  false, ◌&&◌, ◌≡◌, ◌↔◌, refl, arith, eq_iff, none, some, [], ◌∷◌, ◌=ₛ◌, if◌then◌else◌,
}
use latticeag_gateway.Base.Table.{get, find_value, values}
use latticeag_gateway.Base.Table.Update.{changed}
use latticeag_gateway.Protocol.Errors.{token_revoked, plain}
use latticeag_gateway.Protocol.Peers
use latticeag_gateway.Protocol.Peers.{agent}
use latticeag_gateway.Exec.{ok, err}
use latticeag_gateway.Peers.Ports
use latticeag_gateway.Peers.Ports.{
  Store, StoredPeer, GrantRecord, ChallengeRecord, SessionRecord, DeliveryRecord, active,
  open_session, closed_session, queued, dropped, grant_by_refresh_hash, grant_by_access_hash,
}
use latticeag_gateway.Peers.Registry.{
  is_active, is_open, is_queued, revoke, resume_session, open_peer_session,
}
use latticeag_gateway.Peers.Registry.Revocation.{
  IsKeyed, revoked_peer, revoke_closes_all, revoked_sessions_refused,
}
use latticeag_gateway.Peers.Tokens.{
  Config, or_default, Minted, RenewParams, new_grant, renew, verify_access, verify_renew_proof,
}
use latticeag_gateway.Peers.Tokens.Access.{Authenticates, access_exact}
use latticeag_gateway.Peers.Tokens.Renewal.{IsPrincipal, CanRenew}
use latticeag_gateway.Peers.Tokens.Reuse.{renew_retry, reuse_ends_family}

abbrev pub config : Config
config = record {
  gateway = "gw";
  workspace = "ws";
  epoch = "3";
  sha256 = λ s. s;
  access_ttl_s = or_default none Peers.access_ttl_s;
  refresh_ttl_s = or_default none Peers.refresh_ttl_s;
  verify_renew = λ body proof key. proof =ₛ "sig" && key =ₛ "pub";
}

abbrev pub bob : StoredPeer
bob = record {
  id = "p1";
  source = "src";
  key = "k1";
  role = agent;
  scopes = [];
  capabilities = [];
  state = Peers.registered;
  grant_revision = 1;
  key_material = record { id = "k1"; public = "pub" };
  epoch = "3";
  registered_ms = 1;
}

abbrev pub grant1 : GrantRecord
grant1 = record {
  grant = "g1";
  family = "f1";
  peer = "p1";
  instance_id = "gw";
  workspace = "ws";
  key_hash = "k1";
  role = agent;
  scopes = [];
  grant_revision = 1;
  epoch = "3";
  access_hash = "acc";
  refresh_hash = "ref";
  access_expires_ms = 1000;
  refresh_expires_ms = 5000;
  state = active;
  created_ms = 1;
}

abbrev challenge1 : ChallengeRecord
challenge1 = record {
  challenge = "c1";
  key_id = "k1";
  key_public = "pub";
  client_nonce = "cn";
  server_nonce = "sn";
  audience = "gw";
  epoch = "3";
  created_ms = 1;
  expires_ms = 60;
  consumed = false;
}

abbrev session1 : SessionRecord
session1 = record {
  session = "s1";
  peer = "p1";
  kind = "agent";
  state = open_session;
  opened_ms = 2;
  cursor = none;
}

abbrev delivery1 : DeliveryRecord
delivery1 = record {
  delivery = "d1";
  peer = "p1";
  topic = "t";
  payload = "{}";
  queued_ms = 3;
  state = queued;
}

abbrev pub store : Store
store = record {
  pairs = [];
  challenges = ("c1", challenge1) ∷ [];
  peers = ("p1", bob) ∷ [];
  sources = [];
  grants = ("g1", grant1) ∷ [];
  renew_replays = [];
  sessions = ("s1", session1) ∷ [];
  deliveries = ("d1", delivery1) ∷ [];
}

store-IsKeyed : IsKeyed store
unfolding get
store-IsKeyed = record {
  peers = (refl, refl, tt);
  grants = (refl, refl, tt);
  sessions = (refl, refl, tt);
  deliveries = (refl, refl, tt);
}

revoke_closes_all_example :
    let s' = (revoke "p1" store).1 in
    (get "s1" s'.peers ≡ (if "p1" =ₛ "s1" then some (revoked_peer bob) else get "s1" store.peers))
    × (get "s1" s'.grants
        ≡ changed
            (λ g. g.peer =ₛ "p1" && is_active g)
            (λ g. record g { state = Ports.revoked })
            (get "s1" store.grants))
    × (get "s1" s'.sessions
        ≡ changed
            (λ x. x.peer =ₛ "p1" && is_open x)
            (λ x. record x { state = closed_session })
            (get "s1" store.sessions))
    × (get "s1" s'.deliveries
        ≡ changed
            (λ d. d.peer =ₛ "p1" && is_queued d)
            (λ d. record d { state = dropped })
            (get "s1" store.deliveries))
unfolding get
revoke_closes_all_example = revoke_closes_all "p1" store bob store-IsKeyed refl refl "s1"

revoked_sessions_refused_example :
    let s' = (revoke "p1" store).1 in
    (resume_session "s1" s' ≡ (err (plain token_revoked), s'))
    × (open_peer_session 9 "s2" "p1" "agent" none s' ≡ (err (plain token_revoked), s'))
unfolding get
revoked_sessions_refused_example =
    revoked_sessions_refused "p1" store bob "s1" session1 store-IsKeyed refl refl refl refl 9 "s2"
      "agent" none

access_exact_example :
    (verify_access config 10 "acc" store ≡ (ok (grant1, bob), store))
    ↔ Authenticates config 10 "acc" store grant1 bob
access_exact_example = access_exact config 10 "acc" store grant1 bob

abbrev renewal : RenewParams
renewal = record {
  peer = "p1";
  refresh = "ref";
  epoch = "3";
  challenge = "c1";
  server_nonce = "sn";
  proof = "sig";
  request_id = some "r1";
}

abbrev minted : Minted
minted = record { access = "acc2"; refresh = "ref2"; grant = "g2"; family = "f2" }

who : IsPrincipal config renewal store grant1 bob
unfolding grant_by_refresh_hash find_value values get verify_renew_proof
who = record {
  grant = refl;
  owner = refl;
  own_peer = refl;
  live = refl;
  epoch = refl;
  grant_epoch = refl;
  proof = refl;
}

can : CanRenew config 10 renewal store grant1 bob challenge1
unfolding get
can = record {
  state = refl;
  revision = refl;
  in_time = refl;
  challenge = refl;
  challenge_epoch = refl;
  unconsumed = refl;
  fresh = refl;
  nonce = refl;
  key = refl;
}

renew_retry_example :
    let (answer, s') = renew config 10 minted renewal store in
    renew config 20 minted renewal s' ≡ (answer, s')
unfolding get
renew_retry_example =
    renew_retry config 10 minted renewal store grant1 bob challenge1 (refl, refl, tt) who can refl
      "r1" refl 20 minted

-- The grant that the renewal issued.
abbrev grant2 : GrantRecord
grant2 = new_grant config 10 minted bob (some "f1")

abbrev theft : RenewParams
theft = record renewal { request_id = some "r2" }

reuse_ends_family_example :
    let (answer, s') = renew config 20 minted theft (renew config 10 minted renewal store).1 in
    (answer ≡ err (plain token_revoked))
    × ¬ ((grant2.family ≡ "f1") × ((verify_access config 30 "acc2" s').0 ≡ ok (grant2, bob)))
unfolding get verify_renew_proof
reuse_ends_family_example =
    reuse_ends_family config 10 minted renewal store grant1 bob challenge1 (refl, refl, tt) who can
      refl theft 20 minted refl refl refl refl (λ q. ground (arith, eq_iff "r2" "r1")) 30 "acc2"
      grant2 bob
