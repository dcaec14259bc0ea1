-- ===== src/Approvals/Refs.antt =====
-- packages/core/src/v2/approvals/approvals.ts: the checks of a NativeRef and of an ObjectRef.
use latticeag_gateway.Base.{
  ℕ, String, Bool, not, ◌&&◌, Option, none, some, List, [], ◌∷◌, ◌=ₛ◌, leb, includes,
}
use latticeag_gateway.Protocol.Errors.{schema_invalid, at}
use latticeag_gateway.Protocol.Values.{
  Value, null, str, Fields, as_object, at_key, string_at, only_keys, has_keys,
}
use latticeag_gateway.Protocol.Lexical.{byte_length, is_hash64, is_count, is_ascii}
use latticeag_gateway.Base.Maybe.{◌>>=◌, ◌>>◌, keep_if}
use latticeag_gateway.Exec.{Result, or_err}

pub record NativeRef : Type 0 where
  pub profile : String
  pub namespace : String
  pub object_id : String
  pub commitment : Option String
  pub raw_sha256 : String
  pub bytes : String

pub record ObjectRef : Type 0 where
  pub digest : String
  pub bytes : String
  pub media : String

abbrev native_ref_keys : List String
native_ref_keys = "profile" ∷ "namespace" ∷ "object_id" ∷ "commitment" ∷ "raw_sha256" ∷ "bytes" ∷ []

abbrev object_ref_keys : List String
object_ref_keys = "digest" ∷ "bytes" ∷ "media" ∷ []

abbrev media_values : List String
media_values = "application/json" ∷ "application/octet-stream" ∷ "text/plain" ∷ []

-- A printable text of at most `most` bytes.
pub bounded_text : ℕ → String → Bool
bounded_text most s = not (s =ₛ "") && leb (byte_length s) most && is_ascii s

-- The field `commitment`: a string or null.
abbrev commitment_of : Fields → Option (Option String)
commitment_of o = elim (at_key "commitment" o) [
  | none ↦ none
  | some v ↦ elim v [ null ↦ some none | str s ↦ some (some s) | _ ↦ none ]
]

-- The fields in the order in which the code checks them; each failure is one and the same error.
unfoldable pub check_native_ref : Fields → Option NativeRef
unfolding bounded_text
check_native_ref o = do
  profile ← string_at "profile" o
  keep_if (bounded_text 128 profile)
  namespace ← string_at "namespace" o
  keep_if (bounded_text 128 namespace)
  object_id ← string_at "object_id" o
  keep_if (bounded_text 256 object_id)
  commitment ← commitment_of o
  raw_sha256 ← string_at "raw_sha256" o
  keep_if (is_hash64 raw_sha256)
  bytes ← string_at "bytes" o
  keep_if (is_count bytes)
  some (record {
    profile = profile;
    namespace = namespace;
    object_id = object_id;
    commitment = commitment;
    raw_sha256 = raw_sha256;
    bytes = bytes;
  })

unfoldable pub validate_native_ref : Value → String → Result NativeRef
unfolding check_native_ref
validate_native_ref v field = or_err (at schema_invalid field) do
  o ← as_object v
  keep_if (only_keys o native_ref_keys)
  keep_if (has_keys native_ref_keys o)
  check_native_ref o

unfoldable pub check_object_ref : Fields → Option ObjectRef
check_object_ref o = do
  digest ← string_at "digest" o
  keep_if (is_hash64 digest)
  bytes ← string_at "bytes" o
  keep_if (is_count bytes)
  media ← string_at "media" o
  keep_if (includes media_values media)
  some (record { digest = digest; bytes = bytes; media = media })

unfoldable pub validate_object_ref : Value → String → Result ObjectRef
unfolding check_object_ref
validate_object_ref v field = or_err (at schema_invalid field) do
  o ← as_object v
  keep_if (only_keys o object_ref_keys)
  keep_if (has_keys object_ref_keys o)
  check_object_ref o
