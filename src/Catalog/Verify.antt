-- ===== src/Catalog/Verify.antt =====
-- packages/core/src/v2/catalog/index.ts: verifyIndex, the shape of an index, the order of its entries and the
-- quorum of its signatures.
pub mod Quorum
use latticeag_gateway.Base.{
  ℕ, zero, suc, ◌+◌, String, Bool, true, false, not, ◌&&◌, ◌||◌, Option, none, some, List, [], ◌∷◌,
  leb, ltb, ◌==◌, ◌=ₛ◌, if◌then◌else◌, includes, length,
}
use Prim.Native.String.{◌++◌}
use latticeag_gateway.Protocol.Errors.{
  ErrorCode, schema_invalid, schema_unsupported, body_limit, signature_invalid, at,
}
use latticeag_gateway.Protocol.Lexical.{byte_length, is_count, decimal}
use latticeag_gateway.Protocol.Values.{
  Value, Fields, Items, null, str, arr, obj, nil, cons, as_object, at_key, string_at,
}
use latticeag_gateway.Exec.{Result, ok, err, or_err}
use latticeag_gateway.Exec.Checks.{◌>>=◌, ◌>>◌, require}
use latticeag_gateway.Catalog.{
  CatalogIndex, CatalogEntry, CatalogTrust, catalog_channels, index_bytes, max_entries,
  max_signatures,
}
use latticeag_gateway.Catalog.Lexical.{text_before}
use latticeag_gateway.Catalog.Index.{
  index_keys, has_exactly, count_at, items_at, read_items, read_native_ref, read_entry,
}

abbrev items_length : Items → ℕ
items_length nil = 0
items_length (cons v vs) = suc (items_length vs)

-- `cmp < 0`
abbrev pub entry_before : CatalogEntry → CatalogEntry → Bool
entry_before a b =
    if a.slug =ₛ b.slug then text_before a.version b.version else text_before a.slug b.slug

-- Each entry is before the next one.
unfoldable pub increasing : List CatalogEntry → Bool
increasing [] = true
increasing (a ∷ es) = elim es [ [] ↦ true | b ∷ bs ↦ entry_before a b && increasing es ]

abbrev revision_at : Fields → Option String
revision_at o = string_at "revision" o

abbrev invalid : {A : Type 0} → String → Option A → Result A
invalid field o = or_err (at schema_invalid field) o

unfoldable pub read_index : Value → Result CatalogIndex
unfolding increasing
read_index v = do
  o ← invalid "(root)" (as_object v)
  require (has_exactly o index_keys) (at schema_invalid "(root)")
  schema ← or_err (at schema_unsupported "schema") (string_at "schema" o)
  require (schema =ₛ "gateway.catalog/1") (at schema_unsupported "schema")
  revision ← invalid "revision" (revision_at o)
  require (is_count revision) (at schema_invalid "revision")
  issued_ms ← invalid "issued_ms" (count_at "issued_ms" o)
  expires_ms ← invalid "expires_ms" (count_at "expires_ms" o)
  require (ltb issued_ms expires_ms) (at schema_invalid "expires_ms")
  channel ← invalid "channel" (string_at "channel" o)
  require (includes catalog_channels channel) (at schema_invalid "channel")
  entry_values ← invalid "entries" (items_at "entries" o)
  revocation_values ← invalid "entries" (items_at "revocations" o)
  require (leb (items_length entry_values) max_entries) (at schema_invalid "entries")
  revocations ← invalid "revocations" (read_items read_native_ref revocation_values)
  entries ← invalid "entries" (read_items read_entry entry_values)
  require (increasing entries) (at schema_invalid "entries")
  ok (record {
    revision = decimal 0 revision;
    issued_ms = issued_ms;
    expires_ms = expires_ms;
    channel = channel;
    entries = entries;
    revocations = revocations;
  })

-- `statement.body.subject.artifact.digest`
abbrev inside : String → Option Value → Option Value
inside k none = none
inside k (some v) = elim (as_object v) [ none ↦ none | some o ↦ at_key k o ]

abbrev text_of : Option Value → Option String
text_of (some (str s)) = some s
text_of _ = none

abbrev pub bound_digest : Value → Option String
bound_digest v =
    text_of (inside "digest" (inside "artifact" (inside "subject" (inside "body" (some v)))))

abbrev pub is_digest : String → Option String → Bool
is_digest digest none = false
is_digest digest (some d) = d =ₛ digest

-- `distinct.add(keyId)`
abbrev pub add_key : String → List String → List String
add_key k ks = if includes ks k then ks else k ∷ ks

abbrev pub unsigned : {A : Type 0} → Result A
unsigned = err (at signature_invalid "signatures")

-- The loop over the signatures, with the keys that signed so far.
unfoldable pub signers : CatalogTrust → String → List Value → List String → Result (List String)
signers t digest [] ks = ok ks
signers t digest (v ∷ vs) ks = do
  k ← or_err (at signature_invalid "signatures") (t.key_id v)
  require (is_digest digest (bound_digest v)) (at signature_invalid "signatures")
  signers t digest vs (add_key k ks)

-- The index with its canonical text.
unfoldable pub verify_index : CatalogTrust → Value → List Value → Result (CatalogIndex × String)
verify_index t v signatures = do
  index ← read_index v
  raw ← or_err (at schema_invalid "(root)") (t.canonical v)
  require (leb (byte_length raw) index_bytes) (at body_limit "entries")
  require (leb (length signatures) max_signatures) (at schema_invalid "signatures")
  ks ← signers t ("sha256:" ++ t.sha256 raw) signatures []
  require (leb t.quorum (length ks)) (at signature_invalid "signatures")
  ok (index, raw)
