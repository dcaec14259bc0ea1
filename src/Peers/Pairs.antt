-- ===== src/Peers/Pairs.antt =====
-- packages/core/src/v2/peers/pairs.ts: the pairing ceremony. A row that the map holds is one shared
-- object in the code, so an assignment to a field of it is a write to the map here. Hashes,
-- signatures and the codes of invitations come from outside, and so does what the rate limiter says.
pub mod Operations
pub mod Attempts
pub mod Binding
pub mod Commit
pub mod Lifecycle
pub mod Calls
pub mod Once
pub mod Pending
use latticeag_gateway.Base.{
  ℕ, suc, ◌+◌, String, Bool, true, false, not, ◌&&◌, ◌||◌, Option, none, some, List, [], ◌∷◌, ◌=ₛ◌,
  ◌==◌, leb, ltb, if◌then◌else◌, includes, length, any, all, filter,
}
use latticeag_gateway.Base.Table.{get, put, values}
use latticeag_gateway.Protocol.Errors.{
  ErrorCode, RpcError, schema_invalid, schema_unsupported, not_found, forbidden, auth_required,
  busy, revision_conflict, state_transition, signature_invalid, pairing_expired, pairing_locked,
  plain, at,
}
use latticeag_gateway.Protocol.Values.{Value}
use latticeag_gateway.Protocol.Lexical.{is_pair_code}
use latticeag_gateway.Protocol.Peers.{
  Scope, Capability, KeyMaterial, Tier, PairState, created, awaiting_operator, approved, consumed,
  cancelled, expired, locked, can_pair_transition, is_live, same_permission,
  max_pending_invitations, invitation_ttl_ms, max_code_attempts,
}
use latticeag_gateway.Exec.{
  Result, ok, err, Exec, pure, throw, lift, or_throw, gets, ◌>>=◌, ◌>>◌, throw_if, modify, when,
}
use latticeag_gateway.Peers.Ports.{PairRecord, Approval, ChallengeRecord, Store}
use latticeag_gateway.Peers.Registration.{Registration}
use latticeag_gateway.Peers.Registration.Shape.{validate_registration_shape}

-- The body of registerBody in packages/core/src/v2/crypto/pairing.ts.
pub record RegisterBody : Type 0 where
  pub gateway : String
  pub workspace : String
  pub epoch : String
  pub pair : String
  pub challenge : String
  pub client_nonce : String
  pub server_nonce : String
  pub key : String
  pub profiles : List String
  pub interfaces : String
  pub capabilities : List Capability

pub record Config : Type 0 where
  pub gateway : String
  pub workspace : String
  pub epoch : String
  pub supported_profiles : List String
  pub supported_interfaces : String
  -- sha256Hex
  pub sha256 : String → String
  -- the length of a canonical base64url text in bytes
  pub b64u_length : String → Option ℕ
  -- keyIdOfPublic, which throws on a malformed key
  pub key_id_of_public : String → Option String
  -- verifyRegister: the body, the proof, the public key
  pub verify_register : RegisterBody → String → String → Bool
  -- H(J({key, profiles, interfaces, capabilities}))
  pub proposal_hash : KeyMaterial → List String → String → List Capability → String

abbrev pub z64 : String
z64 = "0000000000000000000000000000000000000000000000000000000000000000"

abbrev pub same_pair_state : PairState → PairState → Bool
same_pair_state created created = true
same_pair_state awaiting_operator awaiting_operator = true
same_pair_state approved approved = true
same_pair_state consumed consumed = true
same_pair_state cancelled cancelled = true
same_pair_state expired expired = true
same_pair_state locked locked = true
same_pair_state _ _ = false

abbrev pub same_text : Option String → String → Bool
same_text none s = false
same_text (some t) s = t =ₛ s

abbrev pub same_strings : List String → List String → Bool
same_strings [] [] = true
same_strings (x ∷ xs) (y ∷ ys) = x =ₛ y && same_strings xs ys
same_strings _ _ = false

abbrev pub same_scope : Scope → Scope → Bool
same_scope a b =
    same_permission a.permission b.permission
    && same_strings a.topics b.topics
    && same_strings a.runs b.runs
    && same_strings a.products b.products

-- `canonicalJson(a[i]) === canonicalJson(b[i])` for every i, and the same length.
unfoldable pub scopes_equal : List Scope → List Scope → Bool
scopes_equal [] [] = true
scopes_equal (a ∷ as') (b ∷ bs) = same_scope a b && scopes_equal as' bs
scopes_equal _ _ = false

abbrev pub within_one : Scope → Scope → Bool
within_one inner o =
    same_permission o.permission inner.permission
    && all (includes o.topics) inner.topics
    && all (includes o.runs) inner.runs
    && all (includes o.products) inner.products

unfoldable pub scope_within : Scope → List Scope → Bool
scope_within inner outer = any (within_one inner) outer

abbrev pub set_pair : PairRecord → Exec Store (Unit {0})
set_pair r = modify (λ s. record s { pairs = put r.pair r s.pairs })

unfoldable pub get_pair : String → Exec Store PairRecord
get_pair pair = do found ← gets (λ s. get pair s.pairs); or_throw found (at not_found "pair")

unfoldable pub transition : PairRecord → PairState → Exec Store PairRecord
transition r to = do
  throw_if (not (can_pair_transition r.state to)) (at state_transition "pair")
  set_pair (record r { state = to })
  pure (record r { state = to })

-- The error of a row that is not live.
abbrev terminal_error : PairState → Option RpcError
terminal_error expired = some (at pairing_expired "pair")
terminal_error locked = some (at pairing_locked "pair")
terminal_error cancelled = some (at state_transition "pair")
terminal_error consumed = some (at state_transition "pair")
terminal_error _ = none

abbrev pub throw_some : Option RpcError → Exec Store (Unit {0})
throw_some none s = (ok tt, s)
throw_some (some e) s = (err e, s)

unfoldable pub expire_if_live : PairRecord → Exec Store (Unit {0})
unfolding transition
expire_if_live r = when (is_live r.state) (do r' ← transition r expired; pure tt)

unfoldable pub assert_live : Config → ℕ → PairRecord → Exec Store (Unit {0})
unfolding expire_if_live
assert_live c now r =
    if not (r.epoch =ₛ c.epoch)
    then (do expire_if_live r; throw (at pairing_expired "pair"))
    else if is_live r.state && leb r.expires_ms now
    then (do expire_if_live r; throw (at pairing_expired "pair"))
    else throw_some (terminal_error r.state)

-- `if (rec.state !== "LOCKED") this.transition(rec, "LOCKED"); else this.ports.updatePair(rec);`
unfoldable pub lock : PairRecord → Exec Store (Unit {0})
unfolding transition
lock r =
    if same_pair_state r.state locked then set_pair r else (do r' ← transition r locked; pure tt)

-- The count is raised in the row that the map holds, so it stays where the transition throws.
unfoldable pub fail_attempt : PairRecord → ErrorCode → Exec Store (Unit {0})
fail_attempt r code = do
  let r' : PairRecord = record r { attempts = r.attempts + 1 }
  set_pair r'
  (if leb max_code_attempts r'.attempts
      then (lock r' >> throw (at pairing_locked "code"))
      else throw (at code "code"))

unfoldable pub check_code : Config → PairRecord → String → Exec Store (Unit {0})
check_code c r code = do
  throw_if (not (is_pair_code code)) (at schema_invalid "code")
  when (not (c.sha256 code =ₛ r.code_hash)) (fail_attempt r forbidden)

abbrev pub binds : ChallengeRecord → Registration → Bool
binds ch reg =
    ch.client_nonce =ₛ reg.client_nonce
    && ch.server_nonce =ₛ reg.server_nonce
    && ch.key_id =ₛ reg.key.id

unfoldable pub check_challenge : Config → ℕ → Registration → Exec Store (Unit {0})
check_challenge c now reg = do
  found ← gets (λ s. get reg.challenge s.challenges)
  ch ← or_throw found (at auth_required "challenge")
  throw_if (not (ch.epoch =ₛ c.epoch) || not (reg.epoch =ₛ c.epoch)) (at auth_required "challenge")
  throw_if ch.consumed (at auth_required "challenge")
  throw_if (leb ch.expires_ms now) (at auth_required "challenge")
  throw_if (not (binds ch reg)) (at auth_required "challenge")

abbrev pub body_of : Config → Registration → RegisterBody
body_of c reg = record {
  gateway = c.gateway;
  workspace = c.workspace;
  epoch = reg.epoch;
  pair = reg.pair;
  challenge = reg.challenge;
  client_nonce = reg.client_nonce;
  server_nonce = reg.server_nonce;
  key = reg.key.id;
  profiles = reg.profiles;
  interfaces = reg.interfaces;
  capabilities = reg.capabilities;
}

-- `rec.pinned_key !== null && rec.pinned_key !== reg.key.id`
abbrev pub other_key : Option String → String → Bool
other_key none key = false
other_key (some k) key = not (k =ₛ key)

unfoldable pub check_key_and_proof : Config → PairRecord → Registration → Exec Store (Unit {0})
check_key_and_proof c r reg = do
  when (not (same_text (c.key_id_of_public reg.key.public) reg.key.id)) (fail_attempt r forbidden)
  when (other_key r.pinned_key reg.key.id) (fail_attempt r forbidden)
  when (not (c.verify_register (body_of c reg) reg.proof reg.key.public))
      (fail_attempt r signature_invalid)

unfoldable pub check_profiles : Config → Registration → Exec Store (Unit {0})
check_profiles c reg = do
  throw_if (not (reg.interfaces =ₛ c.supported_interfaces)) (at schema_unsupported "interfaces")
  throw_if (not (all (includes c.supported_profiles) reg.profiles))
      (at schema_unsupported "profiles")

-- The checks of validateRegistration on the pair that it found; `limiter` is what
-- `cfg.limiter?.check(key)` throws.
unfoldable pub check_registration :
    Config → (String → Option RpcError) → ℕ → PairRecord → Registration → Exec Store (Unit {0})
check_registration c limiter now r reg =
    assert_live c now r
    >> (check_code c r reg.code
        >> (check_challenge c now reg
            >> (throw_some (limiter reg.key.id)
                >> (check_key_and_proof c r reg >> check_profiles c reg))))

unfoldable pub validate_registration :
    Config → (String → Option RpcError) → ℕ → Value → Exec Store (PairRecord × Registration)
unfolding get_pair
validate_registration c limiter now v = do
  reg ← lift (validate_registration_shape c.b64u_length v)
  r ← get_pair reg.pair
  check_registration c limiter now r reg
  pure (r, reg)
