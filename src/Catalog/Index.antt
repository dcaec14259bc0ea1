-- ===== src/Catalog/Index.antt =====
-- packages/core/src/v2/catalog/index.ts: the closed shapes of an index, read from a parsed value.
use Prim.Native.Char.{code}
use Prim.Native.String.{[] as ε, ◌∷◌ as ◌⋯◌}
use latticeag_gateway.Base.{
  ℕ, ◌+◌, String, Bool, ◌&&◌, Option, none, some, List, [], ◌∷◌, leb, ◌==◌, if◌then◌else◌, includes,
  length,
}
use latticeag_gateway.Base.Int.{pos, max_safe}
use latticeag_gateway.Base.Maybe.{◌>>=◌, ◌>>◌, keep_if}
use latticeag_gateway.Protocol.Lexical.{is_hash64, is_count}
use latticeag_gateway.Protocol.Values.{
  Value, Fields, Items, null, bool, int, str, arr, nil, cons, as_object, at_key, string_at, keys,
  only_keys,
}
use latticeag_gateway.Approvals.Refs.{NativeRef, ObjectRef}
use latticeag_gateway.Catalog.{CatalogEntry, Surfaces}
use latticeag_gateway.Catalog.Lexical.{is_slug, series_names, is_semver}

abbrev pub index_keys : List String
index_keys =
    "schema" ∷ "revision" ∷ "issued_ms" ∷ "expires_ms" ∷ "channel" ∷ "entries" ∷ "revocations" ∷ []

abbrev entry_keys : List String
entry_keys =
    "slug" ∷ "series" ∷ "version" ∷ "published_ms" ∷ "manifest" ∷ "release_signatures"
    ∷ "adapter_status" ∷ "surfaces" ∷ []

abbrev surfaces_keys : List String
surfaces_keys = "local" ∷ "hosted" ∷ "tier" ∷ "entitlement" ∷ []

abbrev native_ref_keys : List String
native_ref_keys = "profile" ∷ "namespace" ∷ "object_id" ∷ "commitment" ∷ "raw_sha256" ∷ "bytes" ∷ []

abbrev object_ref_keys : List String
object_ref_keys = "digest" ∷ "bytes" ∷ "media" ∷ []

abbrev media_values : List String
media_values = "application/json" ∷ "application/octet-stream" ∷ "text/plain" ∷ []

-- `hasExactly`
abbrev pub has_exactly : Fields → List String → Bool
has_exactly o ks = length (keys o) == length ks && only_keys o ks

-- The `length` of a JavaScript string counts a code point above 0xffff twice.
unfoldable pub units : String → ℕ
units ε = 0
units (c ⋯ s) = (if leb 0x10000 (code c) then 2 else 1) + units s

abbrev of_length : ℕ → String → Bool
of_length most s = leb 1 (units s) && leb (units s) most

abbrev pub text_or_null : Option Value → Option (Option String)
text_or_null (some null) = some none
text_or_null (some (str s)) = some (some s)
text_or_null _ = none

abbrev bool_at : String → Fields → Option Bool
bool_at k o = elim (at_key k o) [ none ↦ none | some v ↦ elim v [ bool b ↦ some b | _ ↦ none ] ]

-- A safe integer of zero or more.
abbrev safe_count : Option Value → Option ℕ
safe_count (some (int (pos n))) = if leb n max_safe then some n else none
safe_count _ = none

abbrev pub count_at : String → Fields → Option ℕ
count_at k o = safe_count (at_key k o)

-- `isClosedNativeRef`
unfoldable pub read_native_ref : Value → Option NativeRef
unfolding units
read_native_ref v = do
  o ← as_object v
  keep_if (has_exactly o native_ref_keys)
  profile ← string_at "profile" o
  keep_if (of_length 128 profile)
  namespace ← string_at "namespace" o
  keep_if (of_length 128 namespace)
  object_id ← string_at "object_id" o
  keep_if (of_length 256 object_id)
  commitment ← text_or_null (at_key "commitment" o)
  raw_sha256 ← string_at "raw_sha256" o
  keep_if (is_hash64 raw_sha256)
  bytes ← string_at "bytes" o
  keep_if (is_count bytes)
  some (record {
    profile = profile;
    namespace = namespace;
    object_id = object_id;
    commitment = commitment;
    raw_sha256 = raw_sha256;
    bytes = bytes;
  })

-- `isClosedObjectRef`
unfoldable pub read_object_ref : Value → Option ObjectRef
read_object_ref v = do
  o ← as_object v
  keep_if (has_exactly o object_ref_keys)
  digest ← string_at "digest" o
  keep_if (is_hash64 digest)
  bytes ← string_at "bytes" o
  keep_if (is_count bytes)
  media ← string_at "media" o
  keep_if (includes media_values media)
  some (record { digest = digest; bytes = bytes; media = media })

-- `vs.every(p)` on values, with what they read as.
unfoldable pub read_items : {A : Type 0} → (Value → Option A) → Items → Option (List A)
read_items f nil = some []
read_items f (cons v vs) = do a ← f v; rest ← read_items f vs; some (a ∷ rest)

abbrev pub items_at : String → Fields → Option Items
items_at k o = elim (at_key k o) [ none ↦ none | some v ↦ elim v [ arr vs ↦ some vs | _ ↦ none ] ]

abbrev pub value_at : {A : Type 0} → (Value → Option A) → String → Fields → Option A
value_at f k o = elim (at_key k o) [ none ↦ none | some v ↦ f v ]

unfoldable pub read_surfaces : Value → Option Surfaces
read_surfaces v = do
  o ← as_object v
  keep_if (has_exactly o surfaces_keys)
  local ← string_at "local" o
  keep_if (includes ("free" ∷ "licensed" ∷ []) local)
  hosted ← bool_at "hosted" o
  tier ← string_at "tier" o
  keep_if (includes ("oss" ∷ "hosted" ∷ "enterprise" ∷ []) tier)
  entitlement ← text_or_null (at_key "entitlement" o)
  some (record { local = local; hosted = hosted; tier = tier; entitlement = entitlement })

-- `isClosedEntry`
unfoldable pub read_entry : Value → Option CatalogEntry
unfolding read_items read_native_ref read_object_ref read_surfaces is_slug is_semver
read_entry v = do
  o ← as_object v
  keep_if (has_exactly o entry_keys)
  slug ← string_at "slug" o
  keep_if (is_slug slug)
  series ← string_at "series" o
  keep_if (includes series_names series)
  version ← string_at "version" o
  keep_if (is_semver version)
  published_ms ← count_at "published_ms" o
  manifest ← value_at read_object_ref "manifest" o
  signatures ← items_at "release_signatures" o
  release_signatures ← read_items read_native_ref signatures
  adapter_status ← string_at "adapter_status" o
  keep_if (includes ("available" ∷ "stub" ∷ []) adapter_status)
  surfaces ← value_at read_surfaces "surfaces" o
  some (record {
    slug = slug;
    series = series;
    version = version;
    published_ms = published_ms;
    manifest = manifest;
    release_signatures = release_signatures;
    adapter_status = adapter_status;
    surfaces = surfaces;
  })
