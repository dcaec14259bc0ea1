-- ===== src/Base/Table/Later.antt =====
-- Tables whose rows live on: each row of the first table has a later version in the second.
use latticeag_gateway.Base.Tests.{◌=ₛ◌, Bool-cases}
use latticeag_gateway.Base.Table.{Table, get, put, Keyed, Keyed-put, get-put}
use Prim.Native.String.{String}
use mathlib.Core.Path.{◌≡◌}
use mathlib.Core.Logic.{inl, inr}
use mathlib.Core.Option.{Option, none, some}
use text.Mathlib.TextEquality.{eq_iff}

abbrev pub EntryLater : {V : Type 0} → (V → V → Type 0) → Option V → Option V → Type 0
EntryLater Later none q = Unit {0}
EntryLater Later (some r) none = ⊥
EntryLater Later (some r) (some r') = Later r r'

pub record TableLater {V : Type 0} (key : V → String) (Later : V → V → Type 0) (t t' : Table V)
    : Type 0 where
  pub keyed : Keyed key t'
  pub rows : (k : String) → EntryLater Later (get k t) (get k t')

module _ {V : Type 0} (key : V → String) (Later : V → V → Type 0) (refl_of : (r : V) → Later r r)
    (trans_of : (a b c : V) → Later a b → Later b c → Later a c) where
  entry_same : (o : Option V) → EntryLater Later o o
  entry_same none = tt
  entry_same (some r) = refl_of r

  entry_trans :
      (a b c : Option V) → EntryLater Later a b → EntryLater Later b c → EntryLater Later a c
  entry_trans none b c h k = tt
  entry_trans (some a) (some b) (some c) h k = trans_of a b c h k
  entry_trans (some a) none c h k = absurd h
  entry_trans (some a) (some b) none h k = absurd k

  pub same_table : (t : Table V) → Keyed key t → TableLater key Later t t
  same_table t keyed = record { keyed = keyed; rows = λ k. entry_same (get k t) }

  pub then_table :
      (a b c : Table V)
      → TableLater key Later a b
      → TableLater key Later b c
      → TableLater key Later a c
  then_table a b c h k = record {
    keyed = k.keyed;
    rows = λ j. entry_trans (get j a) (get j b) (get j c) (h.rows j) (k.rows j);
  }

  -- A row is written, which has the old one as an earlier version if there was one.
  pub put_table :
      (t : Table V) (k : String) (r : V)
      → Keyed key t
      → key r ≡ k
      → EntryLater Later (get k t) (some r)
      → TableLater key Later t (put k r t)
  put_table t k r keyed own h = record {
    keyed = Keyed-put key k r t own keyed;
    rows = λ j. elim (Bool-cases (k =ₛ j)) [
      | inl same ↦ let e : k ≡ j = (eq_iff k j).0 same in rw (get-put k j r t, same, ← e) h
      | inr differs ↦ rw (get-put k j r t, differs) (entry_same (get j t))
    ];
  }
