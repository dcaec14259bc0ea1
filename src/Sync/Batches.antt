-- ===== src/Sync/Batches.antt =====
-- packages/core/src/v2/sync/outbox.ts: what `nextBatchMembers` gives.
use latticeag_gateway.Base.{
  ℕ, String, Bool, true, false, ◌≡◌, inl, inr, refl, ap, sym, ◌∙◌, Option, none, some, List, [],
  ◌∷◌, ◌++◌, map, arith, eq_iff, eq_refl, Bool-cases, Option-cases, ◌=ₛ◌, if◌then◌else◌, filter,
  take,
}
use latticeag_gateway.Base.Table.{Table, get, put, get-put}
use latticeag_gateway.Sync.{Stream, OutboxItem, batch_events}
use latticeag_gateway.Sync.Engine.{Engine, or_nil}
use latticeag_gateway.Sync.Sends.{
  ready_items, by_batch, members_of, group_item, is_none, joined, is_fresh, fill,
  next_batch_members,
}

abbrev pub is_some : String → Option String → Bool
is_some h none = false
is_some h (some j) = j =ₛ h

-- Whether the item was last sent in the batch.
abbrev pub in_batch : Table String → String → OutboxItem → Bool
in_batch prior h i = is_some h (get i.id prior)

abbrev pub or_else : Option String → Option String → Option String
or_else none other = other
or_else (some h) other = some h

-- The batch of the first item that was sent before.
abbrev pub first_batch : Table String → List OutboxItem → Option String
first_batch prior [] = none
first_batch prior (i ∷ is) = or_else (get i.id prior) (first_batch prior is)

abbrev pub ids_of : List OutboxItem → List String
ids_of l = map (λ i. i.id) l

or_else-none : (o : Option String) → o ≡ or_else o none
or_else-none o = ground arith

or_else_assoc : (a b c : Option String) → or_else (or_else a b) c ≡ or_else a (or_else b c)
or_else_assoc none b c = refl
or_else_assoc (some h) b c = refl

append_nil {ℓ} : {A : Type ℓ} (l : List A) → l ++ [] ≡ l
append_nil [] = refl
append_nil (x ∷ xs) = rw (append_nil xs)

append_assoc {ℓ} : {A : Type ℓ} (a b c : List A) → (a ++ b) ++ c ≡ a ++ (b ++ c)
append_assoc [] b c = refl
append_assoc (x ∷ a) b c = rw (append_assoc a b c)

or_nil-joined : (o : Option (List String)) (id : String) → joined o id ≡ or_nil o ++ (id ∷ [])
or_nil-joined none id = refl
or_nil-joined (some l) id = refl

group_item-get :
    (o : Option String) (h id : String) (groups : Table (List String))
    → or_nil (get h (group_item o id groups))
      ≡ or_nil (get h groups) ++ (if is_some h o then id ∷ [] else [])
unfolding group_item
group_item-get none h id groups = sym (append_nil (or_nil (get h groups)))
group_item-get (some j) h id groups = elim (Bool-cases (j =ₛ h)) [
  | inl same ↦
      let e : j ≡ h = (eq_iff j h).0 same in
      rw (get-put j h (joined (get j groups) id) groups, same, e) (or_nil-joined (get h groups) id)
  | inr differs ↦
      rw (get-put j h (joined (get j groups) id) groups, differs)
        (sym (append_nil (or_nil (get h groups))))
]

head_key : Table (List String) → Option String
head_key [] = none
head_key (g ∷ gs) = some g.0

group_item-head :
    (o : Option String) (id : String) (groups : Table (List String))
    → head_key (group_item o id groups) ≡ or_else (head_key groups) o
unfolding group_item head_key put
group_item-head none id [] = refl
group_item-head none id (g ∷ gs) = refl
group_item-head (some j) id [] = refl
group_item-head (some j) id ((k, v) ∷ gs) = ground (arith, eq_iff k j)

module _ (prior : Table String) where
  -- A group of `byBatch` holds the items of its batch, in their order.
  by_batch-get :
      (h : String) (groups : Table (List String)) (l : List OutboxItem)
      → or_nil (get h (by_batch prior groups l))
        ≡ or_nil (get h groups) ++ ids_of (filter (in_batch prior h) l)
  unfolding by_batch
  by_batch-get h groups [] = sym (append_nil (or_nil (get h groups)))
  by_batch-get h groups (i ∷ is) =
      let o : Option String = get i.id prior in
      rw (by_batch-get h (group_item o i.id groups) is, group_item-get o h i.id groups)
        (elim (Bool-cases (in_batch prior h i)) [
          | inl is_in ↦ rw is_in (
              append_assoc (or_nil (get h groups)) (i.id ∷ [])
                (ids_of (filter (in_batch prior h) is)))
          | inr out ↦
              rw out
                (append_assoc (or_nil (get h groups)) [] (ids_of (filter (in_batch prior h) is)))
        ])

  -- The first group is that of the first batch.
  by_batch-head :
      (groups : Table (List String)) (l : List OutboxItem)
      → head_key (by_batch prior groups l) ≡ or_else (head_key groups) (first_batch prior l)
  unfolding by_batch
  by_batch-head groups [] = or_else-none (head_key groups)
  by_batch-head groups (i ∷ is) =
      let o : Option String = get i.id prior in
      rw (by_batch-head (group_item o i.id groups) is, group_item-head o i.id groups)
        (or_else_assoc (head_key groups) o (first_batch prior is))

  fresh_all : (l : List OutboxItem) → first_batch prior l ≡ none → filter (is_fresh prior) l ≡ l
  fresh_all [] h = refl
  fresh_all (i ∷ is) h = elim (Option-cases (get i.id prior)) [
    | inl fresh ↦
        let is_new : is_fresh prior i ≡ true = ap is_none fresh in
        rw is_new (
          ap (λ l. i ∷ l)
            (fresh_all is (ap (λ o. or_else o (first_batch prior is)) (sym fresh) ∙ h)))
    | inr (j, sent) ↦
        let other : some j ≡ none = ap (λ o. or_else o (first_batch prior is)) (sym sent) ∙ h in
        absurd (ground arith)
  ]

  -- What `nextBatchMembers` is to give: the ready items of the first batch that one of them was sent
  -- in, or else the fresh ones up to the limits.
  abbrev pub wanted_members : List OutboxItem → Option String → List String
  wanted_members ready none = fill false 0 (take batch_events ready)
  wanted_members ready (some h) = ids_of (filter (in_batch prior h) ready)

  members_of_lem :
      (ready : List OutboxItem) (groups : Table (List String))
      → by_batch prior [] ready ≡ groups
      → members_of prior ready groups ≡ wanted_members ready (first_batch prior ready)
  unfolding members_of head_key get
  members_of_lem ready [] e =
      let first : first_batch prior ready ≡ none = sym (by_batch-head [] ready) ∙ ap head_key e in
      rw (fresh_all ready first, first) refl
  members_of_lem ready (g ∷ gs) e =
      let first : first_batch prior ready ≡ some g.0 =
        sym (by_batch-head [] ready) ∙ ap head_key e in
      let group : or_nil (get g.0 (g ∷ gs)) ≡ ids_of (filter (in_batch prior g.0) ready) =
        ap (λ t. or_nil (get g.0 t)) (sym e) ∙ by_batch-get g.0 [] ready in
      let own : or_nil (get g.0 (g ∷ gs)) ≡ g.1 = rw (eq_refl g.0) refl in
      rw first (sym own ∙ group)

-- The batch that is sent again holds those of its items that are ready, and only those.
pub next_batch_members_lem :
    (e : Engine) (s : Stream) (now : ℕ)
    → next_batch_members e s now
      ≡ wanted_members e.item_batch
          (ready_items e s now)
          (first_batch e.item_batch (ready_items e s now))
unfolding next_batch_members
next_batch_members_lem e s now =
    members_of_lem e.item_batch (ready_items e s now)
      (by_batch e.item_batch [] (ready_items e s now)) refl
