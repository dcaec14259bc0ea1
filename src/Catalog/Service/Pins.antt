-- ===== src/Catalog/Service/Pins.antt =====
-- packages/core/src/v2/catalog/service.ts: the pins under concurrent changes.
use latticeag_gateway.Base.{
  ℕ, suc, ◌≤◌, String, true, false, ◌≡◌, refl, inl, inr, ◌⊎◌, ◌&&◌, some, List, [], ◌∷◌, ◌++◌,
  arith, eq_iff, ◌==◌, ◌=ₛ◌, Bool-cases, Option-cases,
}
use latticeag_gateway.Protocol.Errors.{revision_conflict, at}
use latticeag_gateway.Exec.{ok, err}
use latticeag_gateway.Catalog.{CatalogPin, Ports}
use latticeag_gateway.Catalog.Service.{commit_pin, commit_unpin, without, has_pin}
use latticeag_gateway.Catalog.Store.{index_commitment}
use latticeag_gateway.Catalog.Store.Authorize.{pin_of}

-- One pin per product.
abbrev pub OnePerSlug : List CatalogPin → Type 0
OnePerSlug [] = Unit {0}
OnePerSlug (p ∷ ps) = (has_pin p.slug ps ≡ false) × OnePerSlug ps

-- A change of the pins by a client, with the revision that the client saw.
pub data Change : Type 0 where
  pins : String → String → String → ℕ → Change
  unpins : String → ℕ → Change

unfoldable pub change : Change → Ports → Ports
change (pins slug version digest expected) s = (commit_pin slug version digest expected s).1
change (unpins slug expected) s = (commit_unpin slug expected s).1

unfoldable pub run : List Change → Ports → Ports
unfolding change
run [] s = s
run (c ∷ cs) s = run cs (change c s)

without-none : (slug : String) (ps : List CatalogPin) → has_pin slug (without slug ps) ≡ false
without-none slug [] = refl
without-none slug (p ∷ ps) = ground (arith, without-none slug ps)

without-fewer :
    (slug j : String) (ps : List CatalogPin)
    → has_pin j ps ≡ false
    → has_pin j (without slug ps) ≡ false
without-fewer slug j [] h = refl
without-fewer slug j (p ∷ ps) h = ground (arith, h, without-fewer slug j ps)

one-without : (slug : String) (ps : List CatalogPin) → OnePerSlug ps → OnePerSlug (without slug ps)
one-without slug [] h = tt
one-without slug (p ∷ ps) h = elim (Bool-cases (p.slug =ₛ slug)) [
  | inl same ↦ rw same (one-without slug ps h.1)
  | inr differs ↦ rw differs (without-fewer slug p.slug ps h.0, one-without slug ps h.1)
]

has_pin-append :
    (j : String) (ps : List CatalogPin) (q : CatalogPin)
    → has_pin j ps ≡ false
    → (q.slug =ₛ j) ≡ false
    → has_pin j (ps ++ (q ∷ [])) ≡ false
has_pin-append j [] q h k = ground (arith, k)
has_pin-append j (p ∷ ps) q h k = ground (arith, h, has_pin-append j ps q (ground (arith, h)) k)

one-append :
    (ps : List CatalogPin) (q : CatalogPin)
    → has_pin q.slug ps ≡ false
    → OnePerSlug ps
    → OnePerSlug (ps ++ (q ∷ []))
one-append [] q h k = (refl, tt)
one-append (p ∷ ps) q h k = (
  has_pin-append p.slug ps q k.0 (ground (arith, h, eq_iff p.slug q.slug, eq_iff q.slug p.slug)),
  one-append ps q (ground (arith, h)) k.1,
)

find-append :
    (slug : String) (ps : List CatalogPin) (q : CatalogPin)
    → has_pin slug ps ≡ false
    → (q.slug =ₛ slug) ≡ true
    → pin_of slug (ps ++ (q ∷ [])) ≡ some q
find-append slug [] q h k = ground (arith, k)
find-append slug (p ∷ ps) q h k = ground (arith, h, find-append slug ps q (ground (arith, h)) k)

-- A pin that is committed: the revision was the expected one, and the list ends with the pin.
committed_lem :
    (slug version digest : String) (expected : ℕ) (s : Ports) (x : ℕ × CatalogPin)
    → (commit_pin slug version digest expected s).0 ≡ ok x
    → (x.1.slug ≡ slug)
      × ((commit_pin slug version digest expected s).1.pin_rev ≡ suc expected)
      × ((commit_pin slug version digest expected s).1.pin_list
          ≡ without slug s.pin_list ++ (x.1 ∷ []))
unfolding commit_pin
committed_lem slug version digest expected s x h = elim (Option-cases (index_commitment s)) [
  | inl e ↦ absurd (ground (arith, h, e))
  | inr (index, e) ↦ (ground (arith, h, e), ground (arith, h, e), ground (arith, h, e))
]

-- What a change may leave: the ports as they were, or one list of pins at the next revision.
abbrev Leaves : Ports → Ports → List CatalogPin → Type 0
Leaves s s' ps = (s' ≡ s) ⊎ ((s'.pin_list ≡ ps) × (s'.pin_rev ≡ suc s.pin_rev))

Leaves-kept :
    (s s' : Ports) (ps : List CatalogPin)
    → OnePerSlug s.pin_list
    → OnePerSlug ps
    → Leaves s s' ps
    → OnePerSlug s'.pin_list × (s.pin_rev ≤ s'.pin_rev)
Leaves-kept s s' ps h k (inl same) = rw same (h, omega arith)
Leaves-kept s s' ps h k (inr (list, rev)) = (rw list k, rw rev (omega arith))

stale_pin :
    (slug version digest : String) (expected : ℕ) (s : Ports)
    → (s.pin_rev == expected) ≡ false
    → commit_pin slug version digest expected s
      ≡ (err (at revision_conflict "expected_revision"), s)
unfolding commit_pin
stale_pin slug version digest expected s h = ground (arith, h)

stale_unpin :
    (slug : String) (expected : ℕ) (s : Ports)
    → (s.pin_rev == expected) ≡ false
    → commit_unpin slug expected s ≡ (err (at revision_conflict "expected_revision"), s)
unfolding commit_unpin
stale_unpin slug expected s h = ground (arith, h)

pins-kept :
    (slug version digest : String) (expected : ℕ) (s : Ports)
    → OnePerSlug s.pin_list
    → OnePerSlug (commit_pin slug version digest expected s).1.pin_list
      × (s.pin_rev ≤ (commit_pin slug version digest expected s).1.pin_rev)
unfolding commit_pin
pins-kept slug version digest expected s h = elim (Option-cases (index_commitment s)) [
  | inl e ↦
      Leaves-kept s (commit_pin slug version digest expected s).1 [] h tt (inl (ground (arith, e)))
  | inr (index, e) ↦ elim (Bool-cases (s.pin_rev == expected)) [
    | inr stale ↦
        Leaves-kept s (commit_pin slug version digest expected s).1 [] h tt
          (inl (ground (arith, stale)))
    | inl same ↦
        let q : CatalogPin = record {
          slug = slug;
          version = version;
          digest = digest;
          index = index;
        } in
        Leaves-kept s (commit_pin slug version digest expected s).1
          (without slug s.pin_list ++ (q ∷ [])) h
          (one-append (without slug s.pin_list) q (without-none slug s.pin_list)
            (one-without slug s.pin_list h))
          (inr (ground (arith, e, same), ground (arith, e, same)))
  ]
]

unpins-kept :
    (slug : String) (expected : ℕ) (s : Ports)
    → OnePerSlug s.pin_list
    → OnePerSlug (commit_unpin slug expected s).1.pin_list
      × (s.pin_rev ≤ (commit_unpin slug expected s).1.pin_rev)
unfolding commit_unpin
unpins-kept slug expected s h =
    elim (Bool-cases (s.pin_rev == expected && has_pin slug s.pin_list)) [
      | inr stale ↦
          Leaves-kept s (commit_unpin slug expected s).1 [] h tt (inl (ground (arith, stale)))
      | inl same ↦
          Leaves-kept s (commit_unpin slug expected s).1 (without slug s.pin_list) h
            (one-without slug s.pin_list h) (inr (ground (arith, same), ground (arith, same)))
    ]

run-kept :
    (cs : List Change) (s : Ports)
    → OnePerSlug s.pin_list
    → OnePerSlug (run cs s).pin_list × (s.pin_rev ≤ (run cs s).pin_rev)
unfolding run change
run-kept [] s h = (h, omega arith)
run-kept (pins slug version digest expected ∷ cs) s h =
    let (one, up) = pins-kept slug version digest expected s h in
    let (rest, more) = run-kept cs (commit_pin slug version digest expected s).1 one in
    (rest, omega (arith, up, more))
run-kept (unpins slug expected ∷ cs) s h =
    let (one, up) = unpins-kept slug expected s h in
    let (rest, more) = run-kept cs (commit_unpin slug expected s).1 one in
    (rest, omega (arith, up, more))

-- A pin that is committed is found for its product at once; and after any further changes there is still at
-- most one pin of each product, and every pin or unpin that expects the revision which this one replaced
-- is a REVISION_CONFLICT and changes nothing.
pub pin_commits_once :
    (slug version digest : String) (expected : ℕ) (s : Ports) (x : ℕ × CatalogPin)
    (cs : List Change) (slug' version' digest' : String)
    → OnePerSlug s.pin_list
    → (commit_pin slug version digest expected s).0 ≡ ok x
    → let s1 = (commit_pin slug version digest expected s).1 in
      (pin_of slug s1.pin_list ≡ some x.1)
      × OnePerSlug (run cs s1).pin_list
      × (commit_pin slug' version' digest' expected (run cs s1)
          ≡ (err (at revision_conflict "expected_revision"), run cs s1))
      × (commit_unpin slug' expected (run cs s1)
          ≡ (err (at revision_conflict "expected_revision"), run cs s1))
pin_commits_once slug version digest expected s x cs slug' version' digest' one h =
    let s1 : Ports = (commit_pin slug version digest expected s).1 in
    let (own, next, list) = committed_lem slug version digest expected s x h in
    let (kept, up) = run-kept cs s1 (pins-kept slug version digest expected s one).0 in
    let stale : ((run cs s1).pin_rev == expected) ≡ false = ground (arith, next, up) in
    (
      rw list (
          find-append slug (without slug s.pin_list) x.1 (without-none slug s.pin_list)
            ((eq_iff x.1.slug slug).1 own)),
      kept,
      stale_pin slug' version' digest' expected (run cs s1) stale,
      stale_unpin slug' expected (run cs s1) stale,
    )
