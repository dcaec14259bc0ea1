-- ===== src/Peers/Pairs/Operations.antt =====
-- packages/core/src/v2/peers/pairs.ts: the operations of the manager behind agent.pair.create,
-- propose, get, approve and cancel and behind agent.register.
use latticeag_gateway.Base.{
  ℕ, ◌+◌, String, Bool, true, not, ◌&&◌, ◌||◌, Option, none, some, List, [], ◌∷◌, ◌=ₛ◌, leb, ltb,
  if◌then◌else◌, length, filter,
}
use latticeag_gateway.Base.Table.{get, put, values}
use latticeag_gateway.Protocol.Errors.{
  RpcError, schema_invalid, forbidden, busy, revision_conflict, state_transition, at,
}
use latticeag_gateway.Protocol.Values.{Value}
use latticeag_gateway.Protocol.Lexical.{is_pair_code}
use latticeag_gateway.Protocol.Peers.{
  Scope, Tier, PairState, created, awaiting_operator, approved, consumed, cancelled, expired,
  is_live, max_pending_invitations, invitation_ttl_ms,
}
use latticeag_gateway.Exec.{
  Result, ok, err, Exec, pure, throw, or_throw, gets, ◌>>=◌, ◌>>◌, throw_if, when,
}
use latticeag_gateway.Peers.Ports.{PairRecord, Approval, Store}
use latticeag_gateway.Peers.Registration.{Registration}
use latticeag_gateway.Peers.Pairs.{
  Config, z64, set_pair, get_pair, transition, assert_live, fail_attempt, throw_some,
  same_pair_state, same_text, scopes_equal, scope_within, validate_registration,
}

pub record View : Type 0 where
  pub pair : String
  pub state : PairState
  pub proposal : String
  pub key : String
  pub scopes : List Scope

abbrev or_else : Option String → String → String
or_else none s = s
or_else (some t) s = t

abbrev first_of : Option String → Option String → Option String
first_of none o = o
first_of (some t) o = some t

abbrev shown_scopes : Option Approval → List Scope → List Scope
shown_scopes none scopes = scopes
shown_scopes (some a) scopes = a.scopes

unfoldable pub view : PairRecord → View
view r = record {
  pair = r.pair;
  state = r.state;
  proposal = or_else r.proposal z64;
  key = or_else (first_of r.proposal_key r.pinned_key) z64;
  scopes = shown_scopes r.approval r.scopes;
}

abbrev pub is_pending : Config → ℕ → PairRecord → Bool
is_pending c now r = is_live r.state && r.epoch =ₛ c.epoch && ltb now r.expires_ms

unfoldable pub pending_count : Config → ℕ → Store → ℕ
pending_count c now s = length (filter (is_pending c now) (values s.pairs))

-- What the allocator and the random source give in a call.
pub record Fresh : Type 0 where
  pub pair : String
  pub code : String

pub record CreateParams : Type 0 where
  pub role : Tier
  pub scopes : List Scope
  pub key : Option String

abbrev pub invited : Config → ℕ → Fresh → CreateParams → PairRecord
invited c now f p = record {
  pair = f.pair;
  code_hash = c.sha256 f.code;
  role = p.role;
  scopes = p.scopes;
  pinned_key = p.key;
  state = created;
  epoch = c.epoch;
  attempts = 0;
  proposal = none;
  proposal_key = none;
  proposal_key_material = none;
  proposal_profiles = none;
  proposal_interfaces = none;
  proposal_capabilities = none;
  approval = none;
  created_ms = now;
  expires_ms = now + invitation_ttl_ms;
}

-- The answer is the pair, the code and the expiry.
unfoldable pub create_invitation :
    Config → ℕ → Fresh → CreateParams → Exec Store (String × String × ℕ)
unfolding pending_count
create_invitation c now f p = do
  pending ← gets (pending_count c now)
  throw_if (leb max_pending_invitations pending) (at busy "pair")
  let r : PairRecord = invited c now f p
  set_pair r
  pure (r.pair, f.code, r.expires_ms)

-- proposalOfRegistration
abbrev pub proposal_of : Config → Registration → String
proposal_of c reg = c.proposal_hash reg.key reg.profiles reg.interfaces reg.capabilities

abbrev pub with_proposal : Config → Registration → PairRecord → PairRecord
with_proposal c reg r = record r {
  proposal = some (proposal_of c reg);
  proposal_key = some reg.key.id;
  proposal_key_material = some reg.key;
  proposal_profiles = some reg.profiles;
  proposal_interfaces = some reg.interfaces;
  proposal_capabilities = some reg.capabilities;
  approval = none;
}

unfoldable pub retain : Config → PairRecord → Registration → Exec Store View
unfolding transition view
retain c r reg =
    if same_text r.proposal (proposal_of c reg)
    then (do set_pair r; pure (view r))
    else (let r' : PairRecord = with_proposal c reg r in
        if same_pair_state r'.state awaiting_operator
        then (do set_pair r'; pure (view r'))
        else (do r'' ← transition r' awaiting_operator; pure (view r'')))

unfoldable pub propose : Config → (String → Option RpcError) → ℕ → Value → Exec Store View
propose c limiter now v = do (r, reg) ← validate_registration c limiter now v; retain c r reg

-- The row after its expiry was noted in passing.
unfoldable pub noted : Config → ℕ → PairRecord → Exec Store PairRecord
unfolding transition
noted c now r =
    if is_live r.state && (not (r.epoch =ₛ c.epoch) || leb r.expires_ms now)
    then transition r expired
    else pure r

unfoldable pub check_code_given : Config → PairRecord → Option String → Exec Store (Unit {0})
check_code_given c r none = pure tt
check_code_given c r (some code) = do
  throw_if (not (is_pair_code code)) (at schema_invalid "code")
  when (not (c.sha256 code =ₛ r.code_hash)) (fail_attempt r forbidden)

-- The method `get`.
unfoldable pub get_pair_view : Config → ℕ → String → Option String → Exec Store View
unfolding noted check_code_given view get_pair
get_pair_view c now pair code = do
  r ← get_pair pair
  r' ← noted c now r
  check_code_given c r' code
  pure (view r')

pub record ApproveParams : Type 0 where
  pub pair : String
  pub proposal : String
  pub key : String
  pub scopes : List Scope

-- The loop over the scopes; `admit` is what the hook throws.
unfoldable pub check_scopes :
    (Scope → Option RpcError) → List Scope → List Scope → Exec Store (Unit {0})
check_scopes admit invited [] = pure tt
check_scopes admit invited (s ∷ ss) = do
  throw_if (not (scope_within s invited)) (at forbidden "scopes")
  throw_some (admit s)
  check_scopes admit invited ss

abbrev pub same_approval : ApproveParams → Approval → Bool
same_approval p a = p.proposal =ₛ a.proposal && p.key =ₛ a.key && scopes_equal p.scopes a.scopes

unfoldable pub commit_approval :
    (Scope → Option RpcError) → ApproveParams → PairRecord → Exec Store (String × PairState)
unfolding transition check_scopes
commit_approval admit p r = do
  throw_if (not (same_pair_state r.state awaiting_operator)) (at state_transition "pair")
  proposal ← or_throw r.proposal (at state_transition "pair")
  throw_if (not (p.proposal =ₛ proposal)) (at revision_conflict "proposal")
  throw_if (not (same_text r.proposal_key p.key)) (at revision_conflict "key")
  check_scopes admit r.scopes p.scopes
  r' ←
      transition
        (record r {
          approval = some (record { proposal = p.proposal; key = p.key; scopes = p.scopes });
        })
        approved
  pure (r'.pair, approved)

unfoldable pub approve :
    Config → (Scope → Option RpcError) → ℕ → ApproveParams → Exec Store (String × PairState)
unfolding get_pair
approve c admit now p = do
  r ← get_pair p.pair
  assert_live c now r
  elim (if same_pair_state r.state approved then r.approval else none) [
    | none ↦ commit_approval admit p r
    | some a ↦
        if same_approval p a
        then pure (r.pair, approved)
        else throw (at revision_conflict "proposal")
  ]

unfoldable pub cancel : Config → ℕ → String → Exec Store (String × PairState)
unfolding get_pair transition
cancel c now pair = do
  r ← get_pair pair
  assert_live c now r
  r' ← transition r cancelled
  pure (r'.pair, cancelled)

unfoldable pub check_approved : Config → PairRecord → Registration → Result (List Scope)
check_approved c r reg = elim (if same_pair_state r.state approved then r.approval else none) [
  | none ↦ err (at state_transition "pair")
  | some a ↦
      if not (reg.key.id =ₛ a.key)
      then err (at forbidden "key")
      else if not (proposal_of c reg =ₛ a.proposal)
      then err (at revision_conflict "proposal")
      else ok a.scopes
]

unfoldable pub assert_registerable :
    Config
    → (String → Option RpcError)
    → ℕ
    → Value
    → Exec Store (PairRecord × Registration × List Scope)
assert_registerable c limiter now v = do
  (r, reg) ← validate_registration c limiter now v
  scopes ← (λ s. (check_approved c r reg, s))
  pure (r, reg, scopes)

unfoldable pub consume_challenge : String → Exec Store (Unit {0})
consume_challenge challenge s = elim (get challenge s.challenges) [
  | none ↦ (ok tt, s)
  | some ch ↦ if ch.consumed then (ok tt, s) else (
    ok tt,
    record s { challenges = put ch.challenge (record ch { consumed = true }) s.challenges },
  )
]

unfoldable pub consume : PairRecord → Registration → Exec Store (Unit {0})
unfolding consume_challenge transition
consume r reg = do consume_challenge reg.challenge; r' ← transition r consumed; pure tt
