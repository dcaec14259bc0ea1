-- ===== src/Protocol/Peers.antt =====
-- packages/core/src/v2/protocol/peers.ts: scopes, capabilities, peers, the limits, the pairing
-- machine and scope admission.
use latticeag_gateway.Base.{
  ℕ, String, Bool, true, false, not, ◌||◌, List, ◌==◌, length, if◌then◌else◌,
}
use latticeag_gateway.Protocol.Errors.{forbidden, at}
use latticeag_gateway.Exec.{Result, ok, err}

pub data Permission : Type 0 where
  events_emit events_consume approvals_request lineage_read products_manage : Permission

abbrev pub same_permission : Permission → Permission → Bool
same_permission events_emit events_emit = true
same_permission events_consume events_consume = true
same_permission approvals_request approvals_request = true
same_permission lineage_read lineage_read = true
same_permission products_manage products_manage = true
same_permission _ _ = false

pub record Scope : Type 0 where
  pub permission : Permission
  pub topics : List String
  pub runs : List String
  pub products : List String

pub data Lineage : Type 0 where
  none_of own : Lineage

-- The field `revision` is the constant 1.
pub record Capability : Type 0 where
  pub name : String
  pub profiles : List String
  pub emit : List String
  pub consume : List String
  pub request_approvals : Bool
  pub lineage : Lineage

pub record KeyMaterial : Type 0 where
  pub id : String
  pub public : String

pub data PeerState : Type 0 where
  registered connected disconnected revoked : PeerState

pub data Tier : Type 0 where
  agent operator : Tier

abbrev pub is_operator : Tier → Bool
is_operator operator = true
is_operator agent = false

-- PEER_LIMITS
abbrev pub max_pending_invitations : ℕ
max_pending_invitations = 128

abbrev pub invitation_ttl_ms : ℕ
invitation_ttl_ms = 300000

abbrev pub max_code_attempts : ℕ
max_code_attempts = 5

abbrev pub access_ttl_s : ℕ
access_ttl_s = 900

abbrev pub refresh_ttl_s : ℕ
refresh_ttl_s = 2592000

pub data PairState : Type 0 where
  created awaiting_operator approved consumed cancelled expired locked : PairState

-- `PAIR_TRANSITIONS[from].includes(to)`
abbrev pub can_pair_transition : PairState → PairState → Bool
can_pair_transition created awaiting_operator = true
can_pair_transition created cancelled = true
can_pair_transition created expired = true
can_pair_transition created locked = true
can_pair_transition awaiting_operator approved = true
can_pair_transition awaiting_operator cancelled = true
can_pair_transition awaiting_operator expired = true
can_pair_transition awaiting_operator locked = true
can_pair_transition approved consumed = true
can_pair_transition approved awaiting_operator = true
can_pair_transition approved cancelled = true
can_pair_transition approved expired = true
can_pair_transition approved locked = true
can_pair_transition _ _ = false

-- PAIR_LIVE_STATES of packages/core/src/v2/peers/ports.ts
abbrev pub is_live : PairState → Bool
is_live created = true
is_live awaiting_operator = true
is_live approved = true
is_live _ = false

pub record AdmissionContext : Type 0 where
  pub role : Tier
  pub allow_operator : Bool
  pub local_operator_confirmation : Bool

unfoldable pub check_scope_admission : Scope → AdmissionContext → Result (Unit {0})
check_scope_admission s c =
    if same_permission s.permission products_manage
    then (if not (is_operator c.role)
          || not c.allow_operator
          || not c.local_operator_confirmation
          || length s.products == 0
        then err (at forbidden "permission")
        else ok tt)
    else ok tt
