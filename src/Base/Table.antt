-- ===== src/Base/Table.antt =====
-- A JavaScript `Map` with string keys: its entries in the order of their first insertion.
pub mod Update
pub mod Rows
pub mod Later
use latticeag_gateway.Base.Tests.{◌=ₛ◌, if◌then◌else◌, Bool-cases}
use latticeag_gateway.Base.Lists.{filter, find}
use Prim.Native.String.{String}
use mathlib.Core.Path.{◌≡◌, refl, sym, ◌∙◌, ap}
use mathlib.Core.Logic.{inl, inr, ◌⊎◌, ◌≢◌}
use mathlib.Core.Bool.{Bool, true, false}
use mathlib.Core.Option.{Option, none, some}
use mathlib.Core.List.{List, [], ◌∷◌}
use native.Mathlib.Omega.{arith}
use text.Mathlib.TextEquality.{eq_iff}
use text.Mathlib.TextPositions.{eq_refl}

abbrev pub Table : Type 0 → Type 0
Table V = List (String × V)

module _ {V : Type 0} where
  -- `map.get(k)`
  unfoldable pub get : String → Table V → Option V
  get k [] = none
  get k ((j, v) ∷ t) = if j =ₛ k then some v else get k t

  -- `map.set(k, v)`: in place where the key is there, at the end where it is not.
  unfoldable pub put : String → V → Table V → Table V
  put k v [] = (k, v) ∷ []
  put k v ((j, w) ∷ t) = if j =ₛ k then (k, v) ∷ t else (j, w) ∷ put k v t

  -- `map.delete(k)`
  unfoldable pub remove : String → Table V → Table V
  remove k [] = []
  remove k ((j, v) ∷ t) = let rest = remove k t in if j =ₛ k then rest else (j, v) ∷ rest

  -- `[...map.values()]`
  unfoldable pub values : Table V → List V
  values [] = []
  values ((k, v) ∷ t) = v ∷ values t

  -- `[...map.values()].find(p)`
  unfoldable pub find_value : (V → Bool) → Table V → Option V
  unfolding values
  find_value p t = find p (values t)

  -- `for (const v of vs) map.set(key(v), f(v))`
  unfoldable pub set_each : (V → String) → (V → V) → List V → Table V → Table V
  set_each key f [] t = t
  set_each key f (v ∷ vs) t = set_each key f vs (put (key v) (f v) t)

  -- The update of all the values that a query selected.
  unfoldable pub update_where : (V → String) → (V → Bool) → (V → V) → Table V → Table V
  unfolding set_each values
  update_where key p f t = set_each key f (filter p (values t)) t

  pub get-put :
      (k j : String) (v : V) (t : Table V)
      → get j (put k v t) ≡ (if k =ₛ j then some v else get j t)
  unfolding get put
  get-put k j v [] = refl
  get-put k j v ((i, w) ∷ t) = ground (arith, eq_iff k j, eq_iff i k, eq_iff i j, get-put k j v t)

  pub get-put_self : (k : String) (v : V) (t : Table V) → get k (put k v t) ≡ some v
  get-put_self k v t = ground (arith, get-put k k v t, eq_refl k)

  pub get-put_ne : (k j : String) (v : V) (t : Table V) → k ≢ j → get j (put k v t) ≡ get j t
  get-put_ne k j v t h = ground (arith, get-put k j v t, eq_iff k j)

  pub get-remove :
      (k j : String) (t : Table V) → get j (remove k t) ≡ (if k =ₛ j then none else get j t)
  unfolding get remove
  get-remove k j [] = ground arith
  get-remove k j ((i, w) ∷ t) = ground (arith, eq_iff k j, eq_iff i k, eq_iff i j, get-remove k j t)

  -- Every row stands under its own key, once.
  abbrev pub Keyed : (V → String) → Table V → Type 0
  Keyed key [] = Unit {0}
  Keyed key ((k, v) ∷ t) = (key v ≡ k) × (get k t ≡ none) × Keyed key t

  pub Keyed-put :
      (key : V → String) (k : String) (v : V) (t : Table V)
      → key v ≡ k
      → Keyed key t
      → Keyed key (put k v t)
  unfolding put get
  Keyed-put key k v [] e h = (e, refl, tt)
  Keyed-put key k v ((j, w) ∷ t) e (own, fresh, rest) = elim (Bool-cases (j =ₛ k)) [
    | inl same ↦ rw same (e, rw (← (eq_iff j k).0 same) fresh, rest)
    | inr differs ↦
        rw differs
          (own, ground (arith, get-put k j v t, eq_iff k j, eq_iff j k), Keyed-put key k v t e rest)
  ]

  -- A row that a lookup finds carries its key.
  pub get-Keyed :
      (key : V → String) (k : String) (t : Table V) (v : V)
      → Keyed key t
      → get k t ≡ some v
      → key v ≡ k
  unfolding get
  get-Keyed key k [] v h e = absurd (ground arith)
  get-Keyed key k ((j, w) ∷ t) v (own, fresh, rest) e =
      ground (arith, eq_iff j k, get-Keyed key k t v rest)
