-- ===== src/Base/Table/Update.antt =====
-- What a loop over selected rows does to a table: each selected row is replaced, no other changes.
use latticeag_gateway.Base.{
  String, ◌≡◌, refl, Bool, Option, none, some, List, [], ◌∷◌, arith, ◌=ₛ◌, eq_iff, if◌then◌else◌,
  filter, find,
}
use latticeag_gateway.Base.Table.{
  Table, get, put, values, set_each, update_where, Keyed, get-put, Keyed-put,
}

module _ {V : Type 0} (key : V → String) where
  abbrev find_key : String → List V → Option V
  find_key j vs = find (λ v. key v =ₛ j) vs

  abbrev Distinct : List V → Type 0
  Distinct [] = Unit {0}
  Distinct (v ∷ vs) = (find_key (key v) vs ≡ none) × Distinct vs

abbrev over : {V : Type 0} → Option V → Option V → (V → V) → Option V
over none old f = old
over (some v) old f = some (f v)

-- The value of a row after the update: `f` of it where the query selected it.
abbrev pub changed : {V : Type 0} → (V → Bool) → (V → V) → Option V → Option V
changed p f none = none
changed p f (some v) = some (if p v then f v else v)

abbrev restrict : {V : Type 0} → (V → Bool) → Option V → Option V
restrict p none = none
restrict p (some v) = if p v then some v else none

module _ {V : Type 0} (key : V → String) (f : V → V) (same : (v : V) → key (f v) ≡ key v) where
  get-set_each :
      (j : String) (vs : List V) (t : Table V)
      → Distinct key vs
      → get j (set_each key f vs t) ≡ over (find_key key j vs) (get j t) f
  unfolding set_each
  get-set_each j [] t d = refl
  get-set_each j (v ∷ vs) t (fresh, d) = ground (
    arith,
    get-set_each j vs (put (key v) (f v) t) d,
    get-put (key v) j (f v) t,
    eq_iff (key v) j,
  )

  Keyed-set_each : (vs : List V) (t : Table V) → Keyed key t → Keyed key (set_each key f vs t)
  unfolding set_each
  Keyed-set_each [] t h = h
  Keyed-set_each (v ∷ vs) t h =
      Keyed-set_each vs (put (key v) (f v) t) (Keyed-put key (key v) (f v) t (same v) h)

  module _ (p : V → Bool) where
    find_key-filter :
        (j : String) (t : Table V)
        → Keyed key t
        → find_key key j (filter p (values t)) ≡ restrict p (get j t)
    unfolding values get
    find_key-filter j [] h = refl
    find_key-filter j ((k, v) ∷ t) (own, fresh, h) =
        ground (arith, find_key-filter j t h, eq_iff (key v) j, eq_iff k j)

    Distinct-filter : (t : Table V) → Keyed key t → Distinct key (filter p (values t))
    unfolding values
    Distinct-filter [] h = tt
    Distinct-filter ((k, v) ∷ t) (own, fresh, h) =
        ground (arith, find_key-filter (key v) t h, Distinct-filter t h)

    pub get-update_where :
        (j : String) (t : Table V)
        → Keyed key t
        → get j (update_where key p f t) ≡ changed p f (get j t)
    unfolding update_where
    get-update_where j t h =
        ground (
          arith,
          get-set_each j (filter p (values t)) t (Distinct-filter t h),
          find_key-filter j t h,
        )

    pub Keyed-update_where : (t : Table V) → Keyed key t → Keyed key (update_where key p f t)
    unfolding update_where
    Keyed-update_where t h = Keyed-set_each (filter p (values t)) t h
