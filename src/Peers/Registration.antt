-- ===== src/Peers/Registration.antt =====
-- packages/core/src/v2/peers/pairs.ts: the lexical checks of a signed registration.
pub mod Shape
use latticeag_gateway.Base.{
  ℕ, String, Bool, true, false, not, ◌&&◌, ◌||◌, Option, none, some, List, [], ◌∷◌, ◌=ₛ◌, ◌==◌, leb,
  if◌then◌else◌, includes, length,
}
use latticeag_gateway.Base.Int.{pos}
use latticeag_gateway.Base.Maybe.{◌>>=◌, ◌>>◌, keep_if}
use latticeag_gateway.Protocol.Errors.{schema_invalid, plain, at, RpcError}
use latticeag_gateway.Protocol.Values.{
  Value, null, bool, int, str, arr, Items, nil, cons, Fields, as_object, as_string, at_key,
  string_at, keys, only_keys, has_keys,
}
use latticeag_gateway.Protocol.Lexical.{byte_length, is_id, is_hash64, is_count}
use latticeag_gateway.Protocol.Peers.{Capability, KeyMaterial, Lineage, none_of, own}
use latticeag_gateway.Exec.{Result, ok, err, or_err}

pub record Registration : Type 0 where
  pub pair : String
  pub code : String
  pub key : KeyMaterial
  pub challenge : String
  pub client_nonce : String
  pub server_nonce : String
  pub epoch : String
  pub profiles : List String
  pub interfaces : String
  pub capabilities : List Capability
  pub proof : String

abbrev pub registration_keys : List String
registration_keys =
    "pair" ∷ "code" ∷ "key" ∷ "challenge" ∷ "client_nonce" ∷ "server_nonce" ∷ "epoch" ∷ "profiles"
    ∷ "interfaces" ∷ "capabilities" ∷ "proof" ∷ []

abbrev capability_keys : List String
capability_keys =
    "name" ∷ "revision" ∷ "profiles" ∷ "emit" ∷ "consume" ∷ "request_approvals" ∷ "lineage" ∷ []

-- PEER_LIMITS
abbrev pub max_capabilities : ℕ
max_capabilities = 32

abbrev pub max_set_entries : ℕ
max_set_entries = 64

abbrev max_name_bytes : ℕ
max_name_bytes = 64

-- The loop of isStringArray; `seen` is its set.
unfoldable pub unique_strings : List String → Items → Option (List String)
unique_strings seen nil = some []
unique_strings seen (cons v vs) = do
  s ← as_string v
  keep_if (not (s =ₛ "") && not (includes seen s))
  rest ← unique_strings (s ∷ seen) vs
  some (s ∷ rest)

abbrev pub item_count : Items → ℕ
item_count nil = 0
item_count (cons v vs) = ℕ.suc (item_count vs)

-- `isStringArray(v, max)`, with the array that passes.
unfoldable pub string_set : ℕ → Option Value → Option (List String)
unfolding unique_strings
string_set most none = none
string_set most (some (arr vs)) = do keep_if (leb (item_count vs) most); unique_strings [] vs
string_set most (some null) = none
string_set most (some v) = none

abbrev pub bool_of : Option Value → Option Bool
bool_of none = none
bool_of (some v) = elim v [ bool b ↦ some b | _ ↦ none ]

abbrev lineage_of : Option String → Option Lineage
lineage_of none = none
lineage_of (some s) = if s =ₛ "none" then some none_of else if s =ₛ "own" then some own else none

-- `c.revision !== 1`
abbrev is_one : Option Value → Bool
is_one none = false
is_one (some v) = elim v [ int n ↦ elim n [ pos k ↦ k == 1 | _ ↦ false ] | _ ↦ false ]

-- A capability, or nothing where one of the checks fails; they all give the same error.
unfoldable pub check_capability : Value → Option Capability
unfolding string_set
check_capability v = do
  c ← as_object v
  keep_if (only_keys c capability_keys)
  name ← string_at "name" c
  keep_if (not (name =ₛ "") && leb (byte_length name) max_name_bytes)
  keep_if (is_one (at_key "revision" c))
  profiles ← string_set max_set_entries (at_key "profiles" c)
  emit ← string_set max_set_entries (at_key "emit" c)
  consume ← string_set max_set_entries (at_key "consume" c)
  request_approvals ← bool_of (at_key "request_approvals" c)
  lineage ← lineage_of (string_at "lineage" c)
  some (record {
    name = name;
    profiles = profiles;
    emit = emit;
    consume = consume;
    request_approvals = request_approvals;
    lineage = lineage;
  })

unfoldable pub check_capabilities : Items → Option (List Capability)
unfolding check_capability
check_capabilities nil = some []
check_capabilities (cons v vs) = do
  c ← check_capability v
  rest ← check_capabilities vs
  some (c ∷ rest)

abbrev pub capabilities_of : Option Value → Option (List Capability)
capabilities_of none = none
capabilities_of (some v) = elim v [
  | arr vs ↦ do keep_if (leb (item_count vs) max_capabilities); check_capabilities vs
  | _ ↦ none
]
