-- ===== src/Catalog/Store/Authorize.antt =====
-- packages/core/src/v2/catalog/index.ts: authorizeInstall.
use latticeag_gateway.Base.{
  ℕ, String, Bool, true, false, not, ◌&&◌, ◌||◌, Option, none, some, List, [], ◌∷◌, ◌=ₛ◌,
  if◌then◌else◌, includes, find,
}
use latticeag_gateway.Protocol.Errors.{policy_denied, trust_expired, at}
use latticeag_gateway.Protocol.Lexical.{behind}
use latticeag_gateway.Approvals.Refs.{NativeRef}
use latticeag_gateway.Exec.{Result, ok, err}
use latticeag_gateway.Exec.Checks.{require}
use latticeag_gateway.Exec.Checks
use latticeag_gateway.Catalog.{
  CatalogPin, CatalogTrust, CachedIndex, Ports, Freshness, catalog_fresh,
}
use latticeag_gateway.Catalog.Store.{freshness_of}

-- `x.startsWith("sha256:") ? x.slice("sha256:".length) : x`
abbrev or_whole : String → Option String → String
or_whole s none = s
or_whole s (some rest) = rest

unfoldable pub bare : String → String
unfolding behind
bare s = or_whole s (behind "sha256:" s)

abbrev revokes_commitment : String → Option String → Bool
revokes_commitment d none = false
revokes_commitment d (some c) = bare c =ₛ d

-- Membership in `revokedDigests(cache)`.
unfoldable pub is_revoked_digest : List NativeRef → String → Bool
unfolding bare
is_revoked_digest [] d = false
is_revoked_digest (r ∷ rs) d =
    r.raw_sha256 =ₛ d || revokes_commitment d r.commitment || is_revoked_digest rs d

pub record InstallRequest : Type 0 where
  pub slug : String
  pub version : String
  pub digest : String

pub record InstallAuthorization : Type 0 where
  pub pinned : Bool
  pub freshness : Freshness
  pub is_stale : Bool

abbrev pub is_current : Freshness → Bool
is_current Freshness.current = true
is_current _ = false

abbrev pub pin_of : String → List CatalogPin → Option CatalogPin
pin_of slug ps = find (λ p. p.slug =ₛ slug) ps

abbrev pub pin_matches : InstallRequest → Option CatalogPin → Bool
pin_matches i none = false
pin_matches i (some p) = p.version =ₛ i.version && p.digest =ₛ i.digest

abbrev pub is_some : {A : Type 0} → Option A → Bool
is_some none = false
is_some (some a) = true

abbrev pub nothing_listed : List String → Bool
nothing_listed [] = true
nothing_listed (x ∷ xs) = false

unfoldable pub authorize_cached :
    CatalogTrust → ℕ → InstallRequest → List CatalogPin → CachedIndex → Result InstallAuthorization
unfolding bare is_revoked_digest catalog_fresh
authorize_cached t now i pins c =
    Checks.◌>>◌
      (require (not (is_revoked_digest c.index.revocations (bare i.digest)))
        (at policy_denied "digest"))
      (Checks.◌>>◌
        (require (not t.strict || (not (nothing_listed t.allowlist) && includes t.allowlist i.slug))
          (at policy_denied "slug"))
        (Checks.◌>>◌ (require (not (is_some pin) || pinned) (at policy_denied "digest")) (
          Checks.◌>>◌ (require (not t.strict || pinned) (at policy_denied "slug")) (
            if pinned
            then ok (record { pinned = true; freshness = f; is_stale = not (is_current f) })
            else Checks.◌>>◌ (require (not c.offline) (at policy_denied "slug")) (
                Checks.◌>>◌ (require (is_current f) (at trust_expired "source"))
                  (ok (record { pinned = false; freshness = f; is_stale = false })))))))
  where
    pin : Option CatalogPin
    pin = pin_of i.slug pins

    pinned : Bool
    pinned = pin_matches i (pin_of i.slug pins)

    f : Freshness
    f = freshness_of t now c

abbrev on_cache :
    CatalogTrust
    → ℕ
    → InstallRequest
    → List CatalogPin
    → Option CachedIndex
    → Result InstallAuthorization
on_cache t now i pins none = err (at trust_expired "source")
on_cache t now i pins (some c) = authorize_cached t now i pins c

unfoldable pub authorize_install :
    CatalogTrust → ℕ → InstallRequest → Ports → Result InstallAuthorization
unfolding authorize_cached
authorize_install t now i s = on_cache t now i s.pin_list s.cache
