-- ===== src/Base/Table/Rows.antt =====
-- The list of a table's rows, sorted or not: every row is held under its key, and no two share one.
use latticeag_gateway.Base.{
  String, ◌≡◌, ◌≢◌, ◌=ₛ◌, sym, ap, ◌∙◌, refl, Bool, true, none, some, List, [], ◌∷◌, inl, inr,
  arith, eq_iff, Bool-cases, All, All-imp,
}
use latticeag_gateway.Base.Sort.{insert_sorted, sort, All-insert_sorted, All-sort}
use latticeag_gateway.Base.Table.{Table, get, put, values, find_value, Keyed}

module _ {V : Type 0} (key : V → String) where
  -- Each row of the list is what the table holds under its key.
  abbrev pub Held : Table V → List V → Type 0
  Held t vs = All (λ v. get (key v) t ≡ some v) vs

  abbrev pub Distinct : List V → Type 0
  Distinct [] = Unit {0}
  Distinct (v ∷ vs) = All (λ w. key v ≢ key w) vs × Distinct vs

  Held-cons :
      (k : String) (v : V) (t : Table V) (vs : List V)
      → get k t ≡ none
      → Held t vs
      → Held ((k, v) ∷ t) vs
  unfolding get
  Held-cons k v t vs fresh h = All-imp vs (λ w e. ground (arith, eq_iff k (key w))) h

  pub Held-values : (t : Table V) → Keyed key t → Held t (values t)
  unfolding values get
  Held-values [] h = tt
  Held-values ((k, v) ∷ t) (own, fresh, h) =
      (ground (arith, eq_iff k (key v)), Held-cons k v t (values t) fresh (Held-values t h))

  pub Distinct-values : (t : Table V) → Keyed key t → Distinct (values t)
  unfolding values get
  Distinct-values [] h = tt
  Distinct-values ((k, v) ∷ t) (own, fresh, h) = (
    All-imp (values t) (λ w e same. cc (sym fresh ∙ ap (λ j. get j t) (sym own ∙ same) ∙ e))
        (Held-values t h),
    Distinct-values t h,
  )

  module _ (before : V → V → Bool) where
    Distinct-insert_sorted :
        (x : V) (ys : List V)
        → All (λ w. key x ≢ key w) ys
        → Distinct ys
        → Distinct (insert_sorted before x ys)
    unfolding insert_sorted
    Distinct-insert_sorted x [] h hs = (tt, tt)
    Distinct-insert_sorted x (y ∷ ys) h hs = elim (Bool-cases (before y x)) [
      | inl e ↦ rw e (
        All-insert_sorted before (λ w. key y ≢ key w) x ys (λ q. h.0 (sym q)) hs.0,
        Distinct-insert_sorted x ys h.1 hs.1,
      )
      | inr e ↦ rw e (h, hs)
    ]

    pub Distinct-sort : (xs : List V) → Distinct xs → Distinct (sort before xs)
    unfolding sort
    Distinct-sort [] h = tt
    Distinct-sort (x ∷ xs) h =
        Distinct-insert_sorted x (sort before xs) (All-sort before (λ w. key x ≢ key w) xs h.0)
          (Distinct-sort xs h.1)

  module _ (p : V → Bool) where
    -- A query finds the new version of the row that it found, if that still fits.
    pub find_value-put_self :
        (g g' : V) (t : Table V)
        → Keyed key t
        → find_value p t ≡ some g
        → p g' ≡ true
        → find_value p (put (key g) g' t) ≡ some g'
    unfolding find_value put values
    find_value-put_self g g' [] h e q = absurd (ground arith)
    find_value-put_self g g' ((k, v) ∷ t) (own, fresh, h) e q = elim (Bool-cases (p v)) [
      | inl hit ↦ let same : v ≡ g = ground arith in ground (arith, eq_iff k (key g), ap key same)
      | inr miss ↦ elim (Bool-cases (k =ₛ key g)) [
        | inl same ↦ rw same (rw q refl)
        | inr differs ↦ rw (differs, miss) (find_value-put_self g g' t h (ground arith) q)
      ]
    ]

    -- A new row stands behind those that a query found before.
    pub find_value-put_new :
        (k : String) (g w : V) (t : Table V)
        → get k t ≡ none
        → find_value p t ≡ some g
        → find_value p (put k w t) ≡ some g
    unfolding find_value put values get
    find_value-put_new k g w [] h e = absurd (ground arith)
    find_value-put_new k g w ((j, v) ∷ t) h e = ground (arith, find_value-put_new k g w t)

    pub find_value-fits : (g : V) (t : Table V) → find_value p t ≡ some g → p g ≡ true
    unfolding find_value values
    find_value-fits g [] e = absurd (ground arith)
    find_value-fits g ((k, v) ∷ t) e = ground (arith, find_value-fits g t)

    -- What a query finds is held under its key.
    pub find_value-held :
        (g : V) (t : Table V) → Keyed key t → find_value p t ≡ some g → get (key g) t ≡ some g
    unfolding find_value values get
    find_value-held g [] h e = absurd (ground arith)
    find_value-held g ((k, v) ∷ t) (own, fresh, h) e = elim (Bool-cases (p v)) [
      | inl hit ↦ let same : v ≡ g = ground arith in ground (arith, eq_iff k (key g), ap key same)
      | inr miss ↦
          let rest = find_value-held g t h (ground arith) in ground (arith, eq_iff k (key g), rest)
    ]
