-- ===== src/Peers/Registration/Shape.antt =====
-- validateRegistrationShape. `b64u_length` gives the number of bytes that a canonical base64url text
-- stands for, and nothing for any other text (isB64uCanonical and Buffer).
use latticeag_gateway.Base.{
  ℕ, String, Bool, true, false, Option, none, some, List, [], ◌∷◌, ◌==◌, if◌then◌else◌, includes,
}
use latticeag_gateway.Protocol.Errors.{schema_invalid, plain, at, RpcError}
use latticeag_gateway.Protocol.Values.{Value, Fields, as_object, at_key, string_at, keys, only_keys}
use latticeag_gateway.Protocol.Lexical.{is_id, is_hash64, is_count}
use latticeag_gateway.Protocol.Peers.{KeyMaterial}
use latticeag_gateway.Exec.{Result, ok, err, or_err}
use latticeag_gateway.Exec.Checks.{◌>>=◌, ◌>>◌, require}
use latticeag_gateway.Peers.Registration.{
  Registration, registration_keys, string_set, max_set_entries, capabilities_of,
}

abbrev invalid : String → RpcError
invalid field = at schema_invalid field

-- `onlyKeys(obj, allowed)`: the first key that is not allowed.
unfoldable pub stray_key : Fields → List String → Option String
stray_key Fields.end allowed = none
stray_key (Fields.field k v o) allowed = if includes allowed k then stray_key o allowed else some k

-- The first of the required keys that is missing.
unfoldable pub missing_key : List String → Fields → Option String
missing_key [] o = none
missing_key (k ∷ ks) o = if includes (keys o) k then missing_key ks o else some k

abbrev no_key : Option String → Result (Unit {0})
no_key none = ok tt
no_key (some k) = err (invalid k)

-- A string field that passes a test.
abbrev text_field : String → (String → Bool) → Fields → Result String
text_field k test o = do s ← or_err (invalid k) (string_at k o); require (test s) (invalid k); ok s

abbrev is_size : ℕ → Option ℕ → Bool
is_size n none = false
is_size n (some m) = m == n

abbrev is_encoded : Option ℕ → Bool
is_encoded none = false
is_encoded (some m) = true

abbrev object_at : String → Fields → Option Fields
object_at k o = elim (at_key k o) [ none ↦ none | some v ↦ as_object v ]

module _ (b64u_length : String → Option ℕ) where
  unfoldable pub check_key : Fields → Result KeyMaterial
  unfolding stray_key
  check_key o = do
    km ← or_err (invalid "key") (object_at "key" o)
    require (only_keys km ("id" ∷ "public" ∷ [])) (invalid "key")
    id ← or_err (invalid "key") (string_at "id" km)
    require (is_hash64 id) (invalid "key")
    public ← or_err (invalid "key") (string_at "public" km)
    require (is_size 32 (b64u_length public)) (invalid "key")
    ok (record { id = id; public = public })

  unfoldable pub validate_registration_shape : Value → Result Registration
  unfolding check_key missing_key stray_key
  validate_registration_shape reg = do
    r ← or_err (plain schema_invalid) (as_object reg)
    no_key (stray_key r registration_keys)
    no_key (missing_key registration_keys r)
    pair ← text_field "pair" is_id r
    code ← text_field "code" (λ _. true) r
    key ← check_key r
    challenge ← text_field "challenge" is_id r
    client_nonce ← text_field "client_nonce" (λ s. is_size 32 (b64u_length s)) r
    server_nonce ← text_field "server_nonce" (λ s. is_size 32 (b64u_length s)) r
    epoch ← text_field "epoch" is_count r
    profiles ← or_err (invalid "profiles") (string_set max_set_entries (at_key "profiles" r))
    interfaces ← text_field "interfaces" (λ _. true) r
    capabilities ← or_err (invalid "capabilities") (capabilities_of (at_key "capabilities" r))
    proof ← text_field "proof" (λ s. is_encoded (b64u_length s)) r
    ok (record {
      pair = pair;
      code = code;
      key = key;
      challenge = challenge;
      client_nonce = client_nonce;
      server_nonce = server_nonce;
      epoch = epoch;
      profiles = profiles;
      interfaces = interfaces;
      capabilities = capabilities;
      proof = proof;
    })
