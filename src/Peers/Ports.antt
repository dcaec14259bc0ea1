-- ===== src/Peers/Ports.antt =====
-- packages/core/src/v2/peers/ports.ts: the durable rows and the maps of createMemoryPeerPorts. Ids,
-- tokens and the clock come from outside: the operations take what the allocator, the random source
-- and the clock give in that call.
use latticeag_gateway.Base.{ℕ, String, Bool, Option, List, ◌=ₛ◌}
use latticeag_gateway.Base.Table.{Table, find_value}
use latticeag_gateway.Protocol.Peers.{Scope, Capability, KeyMaterial, PeerState, Tier, PairState}

pub record Approval : Type 0 where
  pub proposal : String
  pub key : String
  pub scopes : List Scope

pub record PairRecord : Type 0 where
  pub pair : String
  pub code_hash : String
  pub role : Tier
  pub scopes : List Scope
  pub pinned_key : Option String
  pub state : PairState
  pub epoch : String
  pub attempts : ℕ
  pub proposal : Option String
  pub proposal_key : Option String
  pub proposal_key_material : Option KeyMaterial
  pub proposal_profiles : Option (List String)
  pub proposal_interfaces : Option String
  pub proposal_capabilities : Option (List Capability)
  pub approval : Option Approval
  pub created_ms : ℕ
  pub expires_ms : ℕ

pub record ChallengeRecord : Type 0 where
  pub challenge : String
  pub key_id : String
  pub key_public : String
  pub client_nonce : String
  pub server_nonce : String
  pub audience : String
  pub epoch : String
  pub created_ms : ℕ
  pub expires_ms : ℕ
  pub consumed : Bool

pub record StoredPeer : Type 0 where
  pub id : String
  pub source : String
  pub key : String
  pub role : Tier
  pub scopes : List Scope
  pub capabilities : List Capability
  pub state : PeerState
  pub grant_revision : ℕ
  pub key_material : KeyMaterial
  pub epoch : String
  pub registered_ms : ℕ

pub data GrantState : Type 0 where
  active consumed revoked : GrantState

pub record GrantRecord : Type 0 where
  pub grant : String
  pub family : String
  pub peer : String
  pub instance_id : String
  pub workspace : String
  pub key_hash : String
  pub role : Tier
  pub scopes : List Scope
  pub grant_revision : ℕ
  pub epoch : String
  pub access_hash : String
  pub refresh_hash : String
  pub access_expires_ms : ℕ
  pub refresh_expires_ms : ℕ
  pub state : GrantState
  pub created_ms : ℕ

pub record IssuedTokens : Type 0 where
  pub access : String
  pub refresh : String
  pub expires_ms : ℕ

pub record RenewReplay : Type 0 where
  pub request_id : Option String
  pub result : IssuedTokens

pub data SessionState : Type 0 where
  open_session closed_session : SessionState

pub record SessionRecord : Type 0 where
  pub session : String
  pub peer : String
  pub kind : String
  pub state : SessionState
  pub opened_ms : ℕ
  pub cursor : Option String

pub data DeliveryState : Type 0 where
  queued dispatched dropped : DeliveryState

pub record DeliveryRecord : Type 0 where
  pub delivery : String
  pub peer : String
  pub topic : String
  pub payload : String
  pub queued_ms : ℕ
  pub state : DeliveryState

pub record Store : Type 0 where
  pub pairs : Table PairRecord
  pub challenges : Table ChallengeRecord
  pub peers : Table StoredPeer
  pub sources : Table String
  pub grants : Table GrantRecord
  pub renew_replays : Table RenewReplay
  pub sessions : Table SessionRecord
  pub deliveries : Table DeliveryRecord

unfoldable pub grant_by_access_hash : String → Store → Option GrantRecord
grant_by_access_hash hash s = find_value (λ g. g.access_hash =ₛ hash) s.grants

unfoldable pub grant_by_refresh_hash : String → Store → Option GrantRecord
grant_by_refresh_hash hash s = find_value (λ g. g.refresh_hash =ₛ hash) s.grants
