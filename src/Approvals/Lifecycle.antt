-- ===== src/Approvals/Lifecycle.antt =====
-- The life of an approval across the calls of every client: a step relation on rows, and what holds
-- of a row after any sequence of calls.
use latticeag_gateway.Base.{
  ◌≤◌, String, ◌≡◌, refl, ◌⊎◌, inl, inr, Option, none, some, arith, eq_iff, Bool-cases, ap, ◌∙◌,
  ◌=ₛ◌,
}
use latticeag_gateway.Base.Table.{get, put, Keyed, Keyed-put, get-Keyed, get-put}
use latticeag_gateway.Approvals.{ApprovalRecord, Store, pending, expired}

-- A later version of a row: only the fields that a decision sets differ, the revision never falls,
-- and a row that is no longer pending is the very same row.
pub record Later (r r' : ApprovalRecord) : Type 0 where
  pub binding : r' ≡ record r {
    revision = r'.revision;
    state = r'.state;
    decision = r'.decision;
    reason = r'.reason;
    decided_ms = r'.decided_ms;
    reviewer = r'.reviewer;
  }
  pub revision : r.revision ≤ r'.revision
  pub settled : (r.state ≡ pending) ⊎ (r' ≡ r)

pub Later-refl : (r : ApprovalRecord) → Later r r
Later-refl r = record { binding = refl; revision = omega arith; settled = inr refl }

pub Later-trans : (a b c : ApprovalRecord) → Later a b → Later b c → Later a c
Later-trans a b c h k = record {
  binding = ground arith;
  revision = omega arith;
  settled = ground (arith, h.settled, k.settled);
}

abbrev pub RowLater : Option ApprovalRecord → Option ApprovalRecord → Type 0
RowLater none q = Unit {0}
RowLater (some r) none = ⊥
RowLater (some r) (some r') = Later r r'

pub RowLater-refl : (o : Option ApprovalRecord) → RowLater o o
RowLater-refl none = tt
RowLater-refl (some r) = Later-refl r

pub RowLater-trans : (a b c : Option ApprovalRecord) → RowLater a b → RowLater b c → RowLater a c
RowLater-trans none b c h k = tt
RowLater-trans (some a) (some b) (some c) h k = Later-trans a b c h k
RowLater-trans (some a) none c h k = absurd h
RowLater-trans (some a) (some b) none h k = absurd k

abbrev pub key : ApprovalRecord → String
key r = r.approval

-- All the rows of a store live on, and every row stands under its own id.
pub record StoreLater (s s' : Store) : Type 0 where
  pub keyed : Keyed key s'
  pub rows : (k : String) → RowLater (get k s) (get k s')

pub StoreLater-refl : (s : Store) → Keyed key s → StoreLater s s
StoreLater-refl s h = record { keyed = h; rows = λ k. RowLater-refl (get k s) }

pub StoreLater-trans : (a b c : Store) → StoreLater a b → StoreLater b c → StoreLater a c
StoreLater-trans a b c h k = record {
  keyed = k.keyed;
  rows = λ j. RowLater-trans (get j a) (get j b) (get j c) (h.rows j) (k.rows j);
}

module _ (s : Store) (keyed : Keyed key s) where
  -- Writing a later version of a row.
  pub put-Later :
      (r r' : ApprovalRecord)
      → get r.approval s ≡ some r
      → Later r r'
      → StoreLater s (put r.approval r' s)
  put-Later r r' found h = record {
    keyed = Keyed-put key r.approval r' s (ground arith) keyed;
    rows = λ k. elim (Bool-cases (r.approval =ₛ k)) [
      | inl same ↦
          let e : r.approval ≡ k = (eq_iff r.approval k).0 same in
          rw (get-put r.approval k r' s, same, ← e, found) h
      | inr differs ↦ rw (get-put r.approval k r' s, differs) (RowLater-refl (get k s))
    ];
  }

  -- A new row under a new id.
  pub put_new :
      (k : String) (r : ApprovalRecord) → get k s ≡ none → r.approval ≡ k → StoreLater s (put k r s)
  put_new k r fresh own = record {
    keyed = Keyed-put key k r s own keyed;
    rows = λ j. elim (Bool-cases (k =ₛ j)) [
      | inl same ↦ let e : k ≡ j = (eq_iff k j).0 same in rw (get-put k j r s, same, ← e, fresh) tt
      | inr differs ↦ rw (get-put k j r s, differs) (RowLater-refl (get j s))
    ];
  }

  pub expired-Later :
      (r : ApprovalRecord)
      → get r.approval s ≡ some r
      → r.state ≡ pending
      → StoreLater s (put r.approval (record r { state = expired }) s)
  expired-Later r found h =
      put-Later r (record r { state = expired }) found
        (record { binding = refl; revision = omega arith; settled = inl h })

  pub own_key : (k : String) (r : ApprovalRecord) → get k s ≡ some r → get r.approval s ≡ some r
  own_key k r found = ap (λ i. get i s) (get-Keyed key k s r keyed found) ∙ found
