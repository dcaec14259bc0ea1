-- ===== src/Daemon/Values.antt =====
-- packages/gateway-daemon/src/rpc/dispatch.ts: scrubParams, and bindingParams, which bindingHash hashes.
pub mod Scrubbed
use Prim.Native.Char.{Char, code}
use Prim.Native.String.{[] as ε, ◌∷◌ as ◌⋯◌, ◌++◌}
use latticeag_gateway.Base.{
  ℕ, String, Bool, ◌||◌, Option, none, some, List, [], ◌∷◌, ◌==◌, ◌=ₛ◌, if◌then◌else◌, includes,
  find,
}
use latticeag_gateway.Protocol.Lexical.{behind}
use latticeag_gateway.Protocol.Values.{
  Value, Fields, Items, null, bool, int, fraction, str, obj, arr, end, field, nil, cons, at_key,
  string_at,
}
use latticeag_gateway.Daemon.Envelope.{or_null, exempt_binding}
use latticeag_gateway.Daemon.Gate.{fields_of}

-- REDACT_KEYS
abbrev pub redact_keys : List String
redact_keys =
    "access" ∷ "refresh" ∷ "access2" ∷ "refresh2" ∷ "code" ∷ "proof" ∷ "csrf" ∷ "bootstrap"
    ∷ "client_nonce" ∷ "server_nonce" ∷ []

abbrev ends_line : ℕ → Bool
ends_line c = c == 10 || c == 13 || c == 0x2028 || c == 0x2029

-- What `.*` leaves.
unfoldable pub behind_line : String → String
behind_line ε = ""
behind_line (c ⋯ s) = let rest = behind_line s in if ends_line (code c) then c ⋯ s else rest

abbrev cut : Option String → String → String
cut none other = other
cut (some s) other = "#bootstrap=[redacted]" ++ behind_line s

-- `value.replace(/#bootstrap=.*/, "#bootstrap=[redacted]")`, the first occurrence.
unfoldable pub scrub_text : String → String
unfolding behind_line behind
scrub_text ε = ""
scrub_text (c ⋯ s) = let rest = scrub_text s in cut (behind "#bootstrap=" (c ⋯ s)) (c ⋯ rest)

unfoldable mutual
  unfolding scrub_text

  pub scrub_params : Value → Value
  scrub_params (arr vs) = arr (scrub_items vs)
  scrub_params (obj o) = obj (scrub_fields o)
  scrub_params (str s) = str (scrub_text s)
  scrub_params null = null
  scrub_params (bool b) = bool b
  scrub_params (int n) = int n
  scrub_params fraction = fraction

  pub scrub_items : Items → Items
  scrub_items nil = nil
  scrub_items (cons v vs) = cons (scrub_params v) (scrub_items vs)

  pub scrub_fields : Fields → Fields
  scrub_fields end = end
  scrub_fields (field k v o) =
      let scrubbed = scrub_params v in
      field k (if includes redact_keys k then str "[redacted]" else scrubbed) (scrub_fields o)

module _ (sha256 : String → String) where
  abbrev refresh_hash : Option String → Value
  refresh_hash none = null
  refresh_hash (some s) = str (sha256 s)

  abbrev bound_value : String → Fields → Value
  bound_value k o =
      if k =ₛ "refresh_hash" then refresh_hash (string_at "refresh" o) else or_null (at_key k o)

  unfoldable pub bound_fields : List String → Fields → Fields
  bound_fields [] o = end
  bound_fields (k ∷ ks) o = field k (bound_value k o) (bound_fields ks o)

  abbrev bound : Option (String × List String) → Value → Value
  bound none params = params
  bound (some row) params = obj (bound_fields row.1 (fields_of params))

  unfoldable pub binding_params : String → Value → Value
  unfolding bound_fields
  binding_params method params = bound (find (λ row. row.0 =ₛ method) exempt_binding) params

  -- The value that `bindingHash` hashes.
  abbrev pub binding_value : String → Value → Value
  binding_value method params =
      obj (field "method" (str method) (field "params" (binding_params method params) end))
