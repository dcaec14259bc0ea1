-- ===== src/Catalog/Store/Register.antt =====
-- packages/core/src/v2/catalog/index.ts: refresh refines a register that keeps the highest revision ever offered.
-- The register is abstract: it knows of the offers only, not of caches, channels or the order of checks.
use latticeag_gateway.Base.{
  ℕ, ◌≡◌, ◌↔◌, refl, sym, ◌∙◌, inl, inr, Option, none, some, List, [], ◌∷◌, ◌++◌, arith, eq_iff,
  ltb, ◌=ₛ◌, if◌then◌else◌, Option-cases, length,
}
use latticeag_gateway.Exec.{Result, ok, err}
use latticeag_gateway.Catalog.{CatalogTrust, CachedIndex, Highest, Ports}
use latticeag_gateway.Catalog.Store.{
  RefreshOptions, RefreshResult, verified, refresh, accept, accept_verified, freshness_of,
}

-- The specification: of all offers the one with the highest revision, and of several with that revision
-- the first one.
unfoldable pub top : List Highest → Option Highest
top [] = none
top (x ∷ xs) = elim (top xs) [
  | none ↦ some x
  | some y ↦ if ltb x.revision y.revision then some y else some x
]

-- A refresh: the trust configuration, the clock and the arguments.
pub record Refresh : Type 0 where
  pub trust : CatalogTrust
  pub now : ℕ
  pub options : RefreshOptions

abbrev pub offer : CachedIndex → Highest
offer c = record { revision = c.index.revision; digest = c.digest }

-- What a refresh offers: a verified index of the trusted channel.
abbrev pub offered_by : CatalogTrust → Result CachedIndex → List Highest
offered_by t (err e) = []
offered_by t (ok c) = if c.index.channel =ₛ t.channel then offer c ∷ [] else []

unfoldable pub offered : List Refresh → List Highest
offered [] = []
offered (r ∷ rs) = offered_by r.trust (verified r.trust r.options) ++ offered rs

unfoldable pub run : List Refresh → Ports → Ports
run [] s = s
run (r ∷ rs) s = run rs (refresh r.trust r.now r.options s).1

abbrev pub cached : Option CachedIndex → Option Highest
cached none = none
cached (some c) = some (offer c)

abbrev pub Coherent : Ports → Type 0
Coherent s = cached s.cache ≡ s.highest

-- The later of two registers, the first one where they are equal.
abbrev join : Option Highest → Option Highest → Option Highest
join none o = o
join (some h) none = some h
join (some h) (some x) = if ltb h.revision x.revision then some x else some h

join-none : (a : Option Highest) → join a none ≡ a
join-none none = refl
join-none (some h) = refl

join_assoc : (a b c : Option Highest) → join (join a b) c ≡ join a (join b c)
join_assoc none b c = refl
join_assoc (some a) none c = refl
join_assoc (some a) (some b) none = join-none (join (some a) (some b))
join_assoc (some a) (some b) (some c) = ground arith

top-cons : (x : Highest) (xs : List Highest) → top (x ∷ xs) ≡ join (some x) (top xs)
unfolding top
top-cons x xs = go (top xs)
  where
    go :
        (o : Option Highest)
        → elim o as (λ _. Option Highest) [
          | none ↦ some x
          | some y ↦ if ltb x.revision y.revision then some y else some x
        ]
          ≡ join (some x) o
    go none = refl
    go (some y) = refl

top-append : (xs ys : List Highest) → top (xs ++ ys) ≡ join (top xs) (top ys)
top-append [] ys = unfold top in refl
top-append (x ∷ xs) ys =
    rw (top-cons x (xs ++ ys), top-cons x xs, top-append xs ys)
      (sym (join_assoc (some x) (top xs) (top ys)))

accepted_same :
    (t : CatalogTrust) (now : ℕ) (c : CachedIndex) (s : Ports)
    → Coherent s
    → ((accept t now c s).1.highest ≡ join s.highest (top (offered_by t (ok c))))
      × Coherent (accept t now c s).1
unfolding accept top
accepted_same t now c s h = elim (Option-cases s.highest) [
  | inl e ↦ (ground (arith, e, h), ground (arith, e, h))
  | inr (x, e) ↦ (ground (arith, e, h), ground (arith, e, h, eq_iff c.digest x.digest))
]

refreshed :
    (r : Refresh) (s : Ports)
    → Coherent s
    → ((refresh r.trust r.now r.options s).1.highest
        ≡ join s.highest (top (offered_by r.trust (verified r.trust r.options))))
      × Coherent (refresh r.trust r.now r.options s).1
unfolding refresh
refreshed r s h = go (verified r.trust r.options)
  where
    go :
        (o : Result CachedIndex)
        → ((accept_verified r.trust r.now o s).1.highest
            ≡ join s.highest (top (offered_by r.trust o)))
          × Coherent (accept_verified r.trust r.now o s).1
    go (err e) = unfold accept_verified top in (sym (join-none s.highest), h)
    go (ok c) = unfold accept_verified in accepted_same r.trust r.now c s h

run_lem :
    (rs : List Refresh) (s : Ports)
    → Coherent s
    → ((run rs s).highest ≡ join s.highest (top (offered rs))) × Coherent (run rs s)
unfolding run offered
run_lem [] s h = unfold top in (sym (join-none s.highest), h)
run_lem (r ∷ rs) s h =
    let (one, coherent) = refreshed r s h in
    let (rest, end) = run_lem rs (refresh r.trust r.now r.options s).1 coherent in
    let x : List Highest = offered_by r.trust (verified r.trust r.options) in
    (
      rest ∙ rw (one, top-append x (offered rs)) (join_assoc s.highest (top x) (top (offered rs))),
      end,
    )

abbrev outcome : CatalogTrust → ℕ → CachedIndex → RefreshResult
outcome t now c = record {
  revision = c.index.revision;
  entries = length c.index.entries;
  freshness = freshness_of t now c;
}

module _ (t : CatalogTrust) (now : ℕ) (c : CachedIndex) (s : Ports)
    (channel : c.index.channel ≡ t.channel) where
  wins :
      (result : RefreshResult)
      → (accept t now c s).0 ≡ ok result
      → join s.highest (some (offer c)) ≡ some (offer c)
  unfolding accept
  wins result h = elim (Option-cases s.highest) [
    | inl e ↦ ground (arith, e)
    | inr (x, e) ↦
        ground (arith, e, h, channel, eq_iff c.digest x.digest, eq_iff c.index.channel t.channel)
  ]

  won :
      join s.highest (some (offer c)) ≡ some (offer c) → (accept t now c s).0 ≡ ok (outcome t now c)
  unfolding accept
  won h = elim (Option-cases s.highest) [
    | inl e ↦ ground (arith, e, channel, eq_iff c.index.channel t.channel)
    | inr (x, e) ↦
        ground (arith, e, h, channel, eq_iff c.digest x.digest, eq_iff c.index.channel t.channel)
  ]

-- From ports without an index, after any refreshes (of valid and invalid indexes, channels, rollbacks and
-- equivocations, in any order), the highest seen is the top of all that was offered, which is also what the
-- cache holds; and a further verified index of the trusted channel is accepted exactly if it is the top
-- of the offers up to it.
pub refresh_refines :
    (rs : List Refresh) (s : Ports) (t : CatalogTrust) (now : ℕ) (c : CachedIndex)
    → s.cache ≡ none
    → s.highest ≡ none
    → c.index.channel ≡ t.channel
    → ((run rs s).highest ≡ top (offered rs))
      × (cached (run rs s).cache ≡ top (offered rs))
      × (((result : RefreshResult) × ((accept t now c (run rs s)).0 ≡ ok result))
          ↔ (top (offered rs ++ offer c ∷ []) ≡ some (offer c)))
refresh_refines rs s t now c empty unseen channel =
    let (seen, coherent) = run_lem rs s (rw (empty, unseen) refl) in
    let highest : (run rs s).highest ≡ top (offered rs) = seen ∙ rw unseen refl in
    let last : top (offered rs ++ offer c ∷ []) ≡ join (run rs s).highest (some (offer c)) =
      top-append (offered rs) (offer c ∷ []) ∙ rw highest (unfold top in refl) in
    (
      highest,
      coherent ∙ highest,
      (
        (λ (result, h). last ∙ wins t now c (run rs s) channel result h),
        λ h. (outcome t now c, won t now c (run rs s) channel (sym last ∙ h)),
      ),
    )
