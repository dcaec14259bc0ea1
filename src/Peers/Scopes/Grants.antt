-- ===== src/Peers/Scopes/Grants.antt =====
-- packages/core/src/v2/peers/scopes.ts: an effective grant widens nothing.
use latticeag_gateway.Base.{
  String, Bool, true, false, ◌≡◌, refl, inl, inr, Option, none, some, List, [], ◌∷◌, ◌++◌, arith,
  eq_iff, eq_refl, Bool-cases, &&-left, &&-right, any, all, filter, includes, All, All-imp,
}
use latticeag_gateway.Protocol.Peers.{
  Permission, events_emit, events_consume, approvals_request, lineage_read, products_manage,
  same_permission, Scope, Capability,
}
use latticeag_gateway.Peers.Pairs.{within_one, scope_within}
use latticeag_gateway.Peers.Scopes.{
  merge, merge_onto, merge_all, intersect_onto, intersect_scopes, effective_grant, same_joined,
  bind_capabilities, bind_one, flat, keep_if, is_own,
}

all_mono :
    (p q : String → Bool) (l : List String)
    → ((x : String) → p x ≡ true → q x ≡ true)
    → all p l ≡ true
    → all q l ≡ true
all_mono p q [] f h = refl
all_mono p q (x ∷ xs) f h =
    rw (f x (&&-left (p x) (all p xs) h), all_mono p q xs f (&&-right (p x) (all p xs) h)) refl

all-filter : (p : String → Bool) (l : List String) → all p (filter p l) ≡ true
all-filter p [] = refl
all-filter p (x ∷ xs) = elim (Bool-cases (p x)) [
  | inl e ↦ rw (e, e, all-filter p xs) refl
  | inr e ↦ rw e (all-filter p xs)
]

all-includes_self : (l : List String) → all (includes l) l ≡ true
all-includes_self [] = refl
all-includes_self (x ∷ xs) = rw (eq_refl x) (
    all_mono (includes xs) (includes (x ∷ xs)) xs (λ y h. ground (arith, h)) (all-includes_self xs))

all-filter_any :
    (p q : String → Bool) (l : List String) → all q l ≡ true → all q (filter p l) ≡ true
all-filter_any p q [] h = refl
all-filter_any p q (x ∷ xs) h =
    let rest = all-filter_any p q xs (&&-right (q x) (all q xs) h) in
    elim (Bool-cases (p x)) [
      | inl e ↦ rw (e, &&-left (q x) (all q xs) h, rest) refl
      | inr e ↦ rw e rest
    ]

filtered : (p : String → Bool) (l : List String) → all (includes l) (filter p l) ≡ true
filtered p l = all-filter_any p (includes l) l (all-includes_self l)

includes-all :
    (a b : List String) (x : String)
    → all (includes b) a ≡ true
    → includes a x ≡ true
    → includes b x ≡ true
includes-all [] b x h k = absurd (ground arith)
includes-all (y ∷ ys) b x h k =
    ground (
      arith,
      eq_iff y x,
      h,
      k,
      includes-all ys b x (&&-right (includes b y) (all (includes b) ys) h),
    )

subset_trans :
    (a b c : List String)
    → all (includes b) a ≡ true
    → all (includes c) b ≡ true
    → all (includes c) a ≡ true
subset_trans a b c h k = all_mono (includes b) (includes c) a (λ x i. includes-all b c x k i) h

same_permission_refl : (p : Permission) → same_permission p p ≡ true
same_permission_refl p = ground arith

same_permission_eq : (p q : Permission) → same_permission p q ≡ true → p ≡ q
same_permission_eq p q h = ground (arith, h)

pub within_one_refl : (s : Scope) → within_one s s ≡ true
within_one_refl s =
    rw
      (
        same_permission_refl s.permission,
        all-includes_self s.topics,
        all-includes_self s.runs,
        all-includes_self s.products,
      )
      refl

-- A scope within one that is within another.
within_one_trans :
    (a b c : Scope) → within_one a b ≡ true → within_one b c ≡ true → within_one a c ≡ true
within_one_trans a b c h k = ground (
  arith,
  h,
  k,
  subset_trans a.topics b.topics c.topics,
  subset_trans a.runs b.runs c.runs,
  subset_trans a.products b.products c.products,
)

merge-within_left : (s o : Scope) → within_one (merge s o) s ≡ true
merge-within_left s o =
    rw
      (
        same_permission_refl s.permission,
        filtered (includes o.topics) s.topics,
        filtered (includes o.runs) s.runs,
        filtered (includes o.products) s.products,
      )
      refl

merge-within_right :
    (s o : Scope)
    → same_permission s.permission o.permission ≡ true
    → within_one (merge s o) o ≡ true
merge-within_right s o same = ground (
  arith,
  same,
  all-filter (includes o.topics) s.topics,
  all-filter (includes o.runs) s.runs,
  all-filter (includes o.products) s.products,
)

-- What lies within the scope lies within the list.
abbrev Covered : List Scope → Scope → Type 0
Covered l s = (m : Scope) → within_one m s ≡ true → scope_within m l ≡ true

Covered-All : (l : List Scope) → All (Covered l) l
unfolding scope_within
Covered-All [] = tt
Covered-All (x ∷ xs) =
    (λ m h. rw h refl, All-imp xs (λ s c m h. ground (arith, c m h)) (Covered-All xs))

-- A scope that widens neither list.
abbrev pub IsNarrow : List Scope → List Scope → Scope → Type 0
IsNarrow a b s = (scope_within s a ≡ true) × (scope_within s b ≡ true)

All-append :
    (P : Scope → Type 0) (l : List Scope) (x : Scope) → All P l → P x → All P (l ++ (x ∷ []))
All-append P [] x h p = (p, tt)
All-append P (y ∷ ys) x h p = (h.0, All-append P ys x h.1 p)

module _ (a b : List Scope) where
  merge_onto-All :
      (s o : Scope) (out : List Scope)
      → Covered a s
      → Covered b o
      → All (IsNarrow a b) out
      → All (IsNarrow a b) (merge_onto s o out)
  unfolding merge_onto
  merge_onto-All s o out ca cb h = elim (Bool-cases (same_permission s.permission o.permission)) [
    | inr differs ↦ rw (merge_onto, differs) h
    | inl same ↦ elim (Bool-cases (any (same_joined (merge s o)) out)) [
      | inl there ↦ rw (merge_onto, same, there) h
      | inr new ↦
          rw (merge_onto, same, new)
            (All-append (IsNarrow a b) out (merge s o) h (
              ca (merge s o) (merge-within_left s o),
              cb (merge s o) (merge-within_right s o same),
            ))
    ]
  ]

  merge_all-All :
      (s : Scope) (os out : List Scope)
      → Covered a s
      → All (Covered b) os
      → All (IsNarrow a b) out
      → All (IsNarrow a b) (merge_all s os out)
  unfolding merge_all
  merge_all-All s [] out ca cb h = h
  merge_all-All s (o ∷ os) out ca cb h =
      merge_all-All s os (merge_onto s o out) ca cb.1 (merge_onto-All s o out ca cb.0 h)

  intersect_onto-All :
      (ss out : List Scope)
      → All (Covered a) ss
      → All (IsNarrow a b) out
      → All (IsNarrow a b) (intersect_onto ss b out)
  unfolding intersect_onto
  intersect_onto-All [] out ca h = h
  intersect_onto-All (s ∷ ss) out ca h =
      intersect_onto-All ss (merge_all s b out) ca.1 (merge_all-All s b out ca.0 (Covered-All b) h)

  intersect-All : All (IsNarrow a b) (intersect_scopes a b)
  unfolding intersect_scopes
  intersect-All = intersect_onto-All a [] (Covered-All a) tt

-- What lies within a list of scopes that lie within a third lies within that one.
within-All :
    (l c : List Scope) (m : Scope)
    → All (λ s. scope_within s c ≡ true) l
    → scope_within m l ≡ true
    → scope_within m c ≡ true
unfolding scope_within
within-All [] c m h k = absurd (ground arith)
within-All (s ∷ l) c m h k = elim (Bool-cases (within_one m s)) [
  | inl under ↦ through c m s under h.0
  | inr out ↦ within-All l c m h.1 (ground (arith, k, out))
]
  where
    through :
        (c : List Scope) (m s : Scope)
        → within_one m s ≡ true
        → any (within_one s) c ≡ true
        → any (within_one m) c ≡ true
    through [] m s under h = absurd (ground arith)
    through (x ∷ xs) m s under h =
        ground (arith, h, within_one_trans m s x under, through xs m s under)

abbrev pub under_policy : Scope → Option (List Scope) → Bool
under_policy s none = true
under_policy s (some policy) = scope_within s policy

-- Every scope of an effective grant lies within a scope that was requested, within one that the
-- operator approved, and within one of the policy where there is a policy.
pub grant_narrows :
    (requested approved : List Scope) (policy : Option (List Scope))
    → All
        (λ s.
          (scope_within s requested ≡ true)
          × (scope_within s approved ≡ true)
          × (under_policy s policy ≡ true))
        (effective_grant requested approved policy)
unfolding effective_grant
grant_narrows requested approved none =
    All-imp (intersect_scopes requested approved) (λ s h. (h.0, h.1, refl))
      (intersect-All requested approved)
grant_narrows requested approved (some policy) =
    let grant : List Scope = intersect_scopes requested approved in
    let both = intersect-All requested approved in
    All-imp (intersect_scopes grant policy)
      (λ s h. (
        within-All grant requested s (All-imp grant (λ g n. n.0) both) h.0,
        within-All grant approved s (All-imp grant (λ g n. n.1) both) h.0,
        h.1,
      ))
      (intersect-All grant policy)

-- Whether capabilities allow a scope: its topics are among those that they emit or consume, or one of
-- them requests approvals, or reads its own lineage.
abbrev pub by_capability : List Capability → Permission → Scope → Bool
by_capability cs events_emit s = all (includes (flat (λ c. c.emit) cs)) s.topics
by_capability cs events_consume s = all (includes (flat (λ c. c.consume) cs)) s.topics
by_capability cs approvals_request s = any (λ c. c.request_approvals) cs
by_capability cs lineage_read s = any (λ c. is_own c.lineage) cs
by_capability cs products_manage s = true

module _ (cs : List Capability) where
  abbrev IsBound : List Scope → Scope → Type 0
  IsBound l s = (scope_within s l ≡ true) × (by_capability cs s.permission s ≡ true)

  clipped :
      (p : String → Bool) (s : Scope)
      → within_one (record s { topics = filter p s.topics }) s ≡ true
  clipped p s =
      rw
        (
          same_permission_refl s.permission,
          filtered p s.topics,
          all-includes_self s.runs,
          all-includes_self s.products,
        )
        refl

  keep_if-All :
      (l : List Scope) (b : Bool) (s : Scope) (rest : List Scope)
      → (b ≡ true → IsBound l s)
      → All (IsBound l) rest
      → All (IsBound l) (keep_if b s rest)
  keep_if-All l true s rest here h = (here refl, h)
  keep_if-All l false s rest here h = h

  bind_one-All :
      (l : List Scope) (p : Permission) (s : Scope) (rest : List Scope)
      → s.permission ≡ p
      → Covered l s
      → All (IsBound l) rest
      → All (IsBound l) (bind_one cs p s rest)
  bind_one-All l events_emit s rest is c h =
      let may : String → Bool = includes (flat (λ c. c.emit) cs) in
      let s' : Scope = record s { topics = filter may s.topics } in
      ((c s' (clipped may s), rw is (all-filter may s.topics)), h)
  bind_one-All l events_consume s rest is c h =
      let may : String → Bool = includes (flat (λ c. c.consume) cs) in
      let s' : Scope = record s { topics = filter may s.topics } in
      ((c s' (clipped may s), rw is (all-filter may s.topics)), h)
  bind_one-All l approvals_request s rest is c h =
      keep_if-All l (any (λ c. c.request_approvals) cs) s rest
        (λ e. (c s (within_one_refl s), rw is e)) h
  bind_one-All l lineage_read s rest is c h =
      keep_if-All l (any (λ c. is_own c.lineage) cs) s rest
        (λ e. (c s (within_one_refl s), rw is e)) h
  bind_one-All l products_manage s rest is c h = ((c s (within_one_refl s), rw is refl), h)

  bind-All : (l ss : List Scope) → All (Covered l) ss → All (IsBound l) (bind_capabilities ss cs)
  unfolding bind_capabilities
  bind-All l [] c = tt
  bind-All l (s ∷ ss) c =
      bind_one-All l s.permission s (bind_capabilities ss cs) refl c.0 (bind-All l ss c.1)

-- Every scope that is left when a grant is bound to the capabilities lies within a scope of the grant,
-- and the capabilities allow it.
pub bind_narrows :
    (scopes : List Scope) (cs : List Capability)
    → All
        (λ s. (scope_within s scopes ≡ true) × (by_capability cs s.permission s ≡ true))
        (bind_capabilities scopes cs)
bind_narrows scopes cs = bind-All cs scopes scopes (Covered-All scopes)
