-- ===== src/Catalog/Service.antt =====
-- packages/core/src/v2/catalog/service.ts: the methods of the catalog. The parameters are the fields of a parsed
-- object; `lower_case` is toLowerCase.
pub mod Pins
use Prim.Native.String.{◌++◌ as ◌<>◌, [] as ε, ◌∷◌ as ◌⋯◌}
use latticeag_gateway.Base.{
  ℕ, suc, ◌+◌, String, Bool, true, false, not, ◌&&◌, ◌||◌, Option, none, some, List, [], ◌∷◌, ◌++◌,
  leb, ltb, ◌==◌, ◌=ₛ◌, if◌then◌else◌, includes, length, any, filter, find, take, drop,
}
use latticeag_gateway.Base.Int.{ℤ, pos, max_safe}
use latticeag_gateway.Protocol.Errors.{schema_invalid, revision_conflict, not_found, at}
use latticeag_gateway.Protocol.Lexical.{
  byte_length, is_count, is_digits, is_hash64, decimal, behind,
}
use latticeag_gateway.Protocol.Values.{Value, Fields, bool, null, str, at_key, string_at}
use latticeag_gateway.Exec.{
  Result, ok, err, or_err, Exec, pure, throw, lift, or_throw, gets, ◌>>=◌, ◌>>◌, throw_if, modify,
}
use latticeag_gateway.Exec.Checks
use latticeag_gateway.Catalog.{
  CatalogEntry, CatalogPin, CatalogTrust, Ports, Freshness, trust_expired,
}
use latticeag_gateway.Catalog.Lexical.{is_slug, is_semver, series_names}
use latticeag_gateway.Catalog.Index.{text_or_null, count_at}
use latticeag_gateway.Catalog.Store.{
  RefreshOptions, RefreshResult, refresh, entries, freshness, index_commitment,
}

-- A text field that passes a test, or SCHEMA_INVALID at the field.
abbrev where_text : (String → Bool) → String → Fields → Result String
where_text p k o =
    Checks.◌>>=◌ (or_err (at schema_invalid k) (string_at k o))
      λ s. if p s then ok s else err (at schema_invalid k)

abbrev require_slug : Fields → Result String
require_slug o = where_text is_slug "slug" o

abbrev require_version : Fields → Result String
require_version o = where_text is_semver "version" o

-- DIGEST_RE
abbrev is_hash_behind : Option String → Bool
is_hash_behind none = false
is_hash_behind (some s) = is_hash64 s

unfoldable pub is_digest : String → Bool
unfolding behind
is_digest s = is_hash_behind (behind "sha256:" s)

abbrev require_digest : Fields → Result String
require_digest o = where_text is_digest "digest" o

abbrev require_revision : Fields → Result ℕ
require_revision o = Checks.◌>>=◌ (where_text is_count "expected_revision" o) λ s. ok (decimal 0 s)

-- `ports.pinsRevision() !== expected`
abbrev pub check_revision : ℕ → Exec Ports (Unit {0})
check_revision expected s =
    (if s.pin_rev == expected then ok tt else err (at revision_conflict "expected_revision"), s)

abbrev pub set_pins : (List CatalogPin → List CatalogPin) → Exec Ports ℕ
set_pins f s = (ok (suc s.pin_rev), record s { pin_list = f s.pin_list; pin_rev = suc s.pin_rev })

abbrev pub without : String → List CatalogPin → List CatalogPin
without slug ps = filter (λ p. not (p.slug =ₛ slug)) ps

abbrev pub has_pin : String → List CatalogPin → Bool
has_pin slug ps = any (λ p. p.slug =ₛ slug) ps

-- `pin` and `unpin` behind the checks of their parameters.
unfoldable pub commit_pin : String → String → String → ℕ → Exec Ports (ℕ × CatalogPin)
unfolding index_commitment
commit_pin slug version digest expected = do
  check_revision expected
  found ← gets index_commitment
  index ← or_throw found (at not_found "index")
  next ← set_pins (λ ps.
      without slug ps
      ++ (record { slug = slug; version = version; digest = digest; index = index } ∷ []))
  pure (next, record { slug = slug; version = version; digest = digest; index = index })

unfoldable pub pin : Fields → Exec Ports (ℕ × CatalogPin)
unfolding commit_pin is_digest
pin o = do
  slug ← lift (require_slug o)
  version ← lift (require_version o)
  digest ← lift (require_digest o)
  expected ← lift (require_revision o)
  commit_pin slug version digest expected

unfoldable pub commit_unpin : String → ℕ → Exec Ports ℕ
commit_unpin slug expected = do
  check_revision expected
  there ← gets (λ s. has_pin slug s.pin_list)
  throw_if (not there) (at not_found "slug")
  set_pins (without slug)

unfoldable pub unpin : Fields → Exec Ports ℕ
unfolding commit_unpin
unpin o = do
  slug ← lift (require_slug o)
  expected ← lift (require_revision o)
  commit_unpin slug expected

abbrev is_true : Option Value → Bool
is_true (some (bool b)) = b
is_true _ = false

-- `refresh`: the snapshot and what the fetch of the source gives come from the ports.
unfoldable pub refresh_method :
    CatalogTrust → ℕ → (String → RefreshOptions) → Fields → Exec Ports RefreshResult
unfolding refresh
refresh_method t now source_options o = do
  source ← lift (where_text (λ s. not (s =ₛ "")) "source" o)
  refresh t now
      (record (source_options source) { provided = none; offline = is_true (at_key "offline" o) })

unfoldable pub show : CatalogTrust → ℕ → Fields → Exec Ports (CatalogEntry × Freshness)
unfolding entries freshness
show t now o = do
  slug ← lift (require_slug o)
  version ← lift (require_version o)
  es ← gets entries
  entry ← or_throw (find (λ e. e.slug =ₛ slug && e.version =ₛ version) es) (at not_found "slug")
  fresh ← gets (λ s. elim (freshness t now s) [ none ↦ trust_expired | some f ↦ f ])
  pure (entry, fresh)

-- `haystack.includes(needle)`
abbrev is_prefix : Option String → Bool
is_prefix none = false
is_prefix (some s) = true

unfoldable pub contains_text : String → String → Bool
unfolding behind
contains_text needle ε = needle =ₛ ""
contains_text needle (c ⋯ s) = is_prefix (behind needle (c ⋯ s)) || contains_text needle s

abbrev in_series : Option String → CatalogEntry → Bool
in_series none e = true
in_series (some s) e = e.series =ₛ s

unfoldable pub matches : (String → String) → String → Option String → CatalogEntry → Bool
unfolding contains_text
matches lower_case needle series e =
    (needle =ₛ ""
      || contains_text needle (lower_case e.slug)
      || contains_text needle (lower_case e.version))
    && in_series series e

abbrev search_limit_max : ℕ
search_limit_max = 200

abbrev is_series : Option String → Bool
is_series none = true
is_series (some s) = includes series_names s

abbrev offset_of : Option String → Result ℕ
offset_of none = ok 0
offset_of (some s) = if is_digits s then ok (decimal 0 s) else err (at schema_invalid "after")

-- The page of `search`, and the offset of the next one.
unfoldable pub page_from : ℕ → ℕ → List CatalogEntry → List CatalogEntry × Option ℕ
page_from offset limit found = (
  take limit (drop offset found),
  if ltb (offset + limit) (length found) then some (offset + limit) else none,
)

unfoldable pub search : (String → String) → Fields → Exec Ports (List CatalogEntry × Option ℕ)
unfolding matches page_from entries
search lower_case o = do
  q ← lift (where_text (λ s. leb (byte_length s) 128) "q" o)
  series ← lift (or_err (at schema_invalid "series") (text_or_null (at_key "series" o)))
  lift (if is_series series then ok tt else err (at schema_invalid "series"))
  limit ← lift (or_err (at schema_invalid "limit") (count_at "limit" o))
  lift
      (if leb 1 limit && leb limit search_limit_max then ok tt else err (at schema_invalid "limit"))
  after ← lift (or_err (at schema_invalid "after") (text_or_null (at_key "after" o)))
  offset ← lift (offset_of after)
  es ← gets entries
  pure (page_from offset limit (filter (matches lower_case (lower_case q) series) es))
