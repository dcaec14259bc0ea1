-- ===== src/Catalog/Store/Installs.antt =====
-- packages/core/src/v2/catalog/index.ts: when authorizeInstall allows an install.
use latticeag_gateway.Base.{
  ℕ, String, Bool, true, false, not, ◌&&◌, ◌≡◌, ◌↔◌, refl, inl, inr, Option, none, some, List, [],
  ◌∷◌, arith, eq_iff, includes, Option-cases,
}
use latticeag_gateway.Exec.{ok}
use latticeag_gateway.Catalog.{
  CatalogTrust, CachedIndex, CatalogPin, Ports, Freshness, current, catalog_fresh,
}
use latticeag_gateway.Catalog.Store.{freshness_of}
use latticeag_gateway.Catalog.Store.Authorize.{
  InstallRequest, InstallAuthorization, authorize_install, authorize_cached, is_revoked_digest,
  bare, pin_of, is_some, is_current, nothing_listed,
}

listed_lem :
    (l : List String) (x : String) → (not (nothing_listed l) && includes l x) ≡ includes l x
listed_lem [] x = refl
listed_lem (y ∷ l) x = refl

current_lem : (f : Freshness) → is_current f ≡ true → f ≡ current
current_lem Freshness.current h = refl
current_lem Freshness.stale h = absurd (ground arith)
current_lem Freshness.trust_expired h = absurd (ground arith)
current_lem Freshness.offline_pinned h = absurd (ground arith)

-- The authorization that an install gets.
abbrev pub authorization : Bool → Freshness → InstallAuthorization
authorization pinned f = record {
  pinned = pinned;
  freshness = f;
  is_stale = pinned && not (is_current f);
}

-- The conditions on an install without a pin of its product, and with one.
pub record FreshInstall (t : CatalogTrust) (now : ℕ) (c : CachedIndex) : Type 0 where
  pub lenient : t.strict ≡ false
  pub online : c.offline ≡ false
  pub fresh : catalog_fresh c.index now t.max_age_s ≡ current

pub record PinnedInstall (t : CatalogTrust) (i : InstallRequest) (p : CatalogPin) : Type 0 where
  pub listed : t.strict ≡ true → includes t.allowlist i.slug ≡ true
  pub version : p.version ≡ i.version
  pub digest : p.digest ≡ i.digest

abbrev pub ByPin : CatalogTrust → ℕ → InstallRequest → CachedIndex → Option CatalogPin → Type 0
ByPin t now i c none = FreshInstall t now c
ByPin t now i c (some p) = PinnedInstall t i p

pub record MayInstall (t : CatalogTrust) (now : ℕ) (i : InstallRequest) (s : Ports)
    (c : CachedIndex) : Type 0 where
  pub cached : s.cache ≡ some c
  pub unrevoked : is_revoked_digest c.index.revocations (bare i.digest) ≡ false
  pub by_pin : ByPin t now i c (pin_of i.slug s.pin_list)

module _ (t : CatalogTrust) (now : ℕ) (i : InstallRequest) (ps : List CatalogPin)
    (c : CachedIndex) where
  allowed :
      (o : Option CatalogPin)
      → pin_of i.slug ps ≡ o
      → is_revoked_digest c.index.revocations (bare i.digest) ≡ false
      → ByPin t now i c o
      → authorize_cached t now i ps c ≡ ok (authorization (is_some o) (freshness_of t now c))
  unfolding authorize_cached
  allowed none e u h = ground (arith, e, u, h.lenient, h.online, h.fresh)
  allowed (some p) e u h = ground (
    arith,
    e,
    u,
    h.listed,
    h.version,
    h.digest,
    listed_lem t.allowlist i.slug,
    eq_iff p.version i.version,
    eq_iff p.digest i.digest,
  )

  required :
      (o : Option CatalogPin) (a : InstallAuthorization)
      → pin_of i.slug ps ≡ o
      → authorize_cached t now i ps c ≡ ok a
      → (is_revoked_digest c.index.revocations (bare i.digest) ≡ false)
        × ByPin t now i c o
        × (a ≡ authorization (is_some o) (freshness_of t now c))
  unfolding authorize_cached
  required none a e h = (
    ground (arith, e, h),
    record {
      lenient = ground (arith, e, h);
      online = ground (arith, e, h);
      fresh = current_lem (catalog_fresh c.index now t.max_age_s) (ground (arith, e, h));
    },
    ground (arith, e, h),
  )
  required (some p) a e h = (
    ground (arith, e, h),
    record {
      listed = λ strict. ground (arith, e, h, strict, listed_lem t.allowlist i.slug);
      version = ground (arith, e, h, eq_iff p.version i.version);
      digest = ground (arith, e, h, eq_iff p.digest i.digest);
    },
    ground (arith, e, h),
  )

-- An install is authorized exactly if there is a cached index that does not revoke its digest and either
-- the product has no pin, the trust is not strict, and the index is no offline snapshot and CURRENT, or its
-- pin is of just this version and digest and, under strict trust, the product is on the allowlist. The
-- answer tells whether it was by the pin, the freshness, and that a pinned one is stale if it is not CURRENT.
pub install_exact :
    (t : CatalogTrust) (now : ℕ) (i : InstallRequest) (s : Ports) (a : InstallAuthorization)
    → (authorize_install t now i s ≡ ok a) ↔ (
        (c : CachedIndex) × MayInstall t now i s c
        × (a ≡ authorization (is_some (pin_of i.slug s.pin_list)) (freshness_of t now c)))
unfolding authorize_install
install_exact t now i s a = (there, back)
  where
    there :
        authorize_install t now i s ≡ ok a
        → (c : CachedIndex) × MayInstall t now i s c
          × (a ≡ authorization (is_some (pin_of i.slug s.pin_list)) (freshness_of t now c))
    there h = elim (Option-cases s.cache) [
      | inl e ↦ absurd (ground (arith, e, h))
      | inr (c, e) ↦
          let (u, by, answer) =
            required t now i s.pin_list c (pin_of i.slug s.pin_list) a refl
              (ground (arith, e, h)) in
          (c, record { cached = e; unrevoked = u; by_pin = by }, answer)
    ]

    back :
        (c : CachedIndex) × MayInstall t now i s c
          × (a ≡ authorization (is_some (pin_of i.slug s.pin_list)) (freshness_of t now c))
        → authorize_install t now i s ≡ ok a
    back (c, h, answer) =
        rw (h.cached, answer)
          (allowed t now i s.pin_list c (pin_of i.slug s.pin_list) refl h.unrevoked h.by_pin)
