-- ===== src/Sync/Settle.antt =====
-- packages/core/src/v2/sync/outbox.ts: what the loops over a batch do to each of its items.
use latticeag_gateway.Base.{
  String, Bool, true, false, not, ◌&&◌, ◌≡◌, inl, inr, refl, ap, sym, ◌∙◌, Option, none, some, List,
  [], ◌∷◌, arith, eq_iff, eq_refl, Bool-cases, Option-cases, &&-left, &&-right, ◌=ₛ◌, if◌then◌else◌,
  includes,
}
use latticeag_gateway.Base.Table.{Table, Keyed, get, put, get-put, Keyed-put, get-Keyed}
use latticeag_gateway.Exec.{Result, ok}
use latticeag_gateway.Exec.Bind.{after_ok}
use latticeag_gateway.Sync.{OutboxState, OutboxItem, can_outbox_transition}
use latticeag_gateway.Sync.Engine.{Engine, transition}
use latticeag_gateway.Sync.Sends.{move_each, change_item}
use latticeag_gateway.Sync.Moves.{item_key}

abbrev pub distinct : List String → Bool
distinct [] = true
distinct (x ∷ xs) = not (includes xs x) && distinct xs

-- Whether the item of an id is there and may move.
abbrev pub may_move : OutboxState → Option OutboxItem → Bool
may_move to none = false
may_move to (some i) = can_outbox_transition i.state to

abbrev pub all_may : OutboxState → Table OutboxItem → List String → Bool
all_may to t [] = true
all_may to t (id ∷ ids) = may_move to (get id t) && all_may to t ids

-- An item after its turn.
abbrev pub moved : (OutboxItem → OutboxItem) → OutboxState → Option OutboxItem → Option OutboxItem
moved f to none = none
moved f to (some i) = some (record (f i) { state = to })

abbrev pub RowsMoved :
    (OutboxItem → OutboxItem)
    → OutboxState
    → List String
    → Table OutboxItem
    → Table OutboxItem
    → Type 0
RowsMoved f to ids t t' =
    (k : String) → get k t' ≡ (if includes ids k then moved f to (get k t) else get k t)

-- A mark that changes an item by `f`, and neither its id nor its state.
pub record MarksBy (f : OutboxItem → OutboxItem) (mark : String → Engine → Engine) : Type 0 where
  pub keyed : (id : String) (e : Engine) → Keyed item_key e.items → Keyed item_key (mark id e).items
  pub rows :
      (id : String) (e : Engine) (i : OutboxItem)
      → i.id ≡ id
      → get id e.items ≡ some i
      → (k : String) → get k (mark id e).items ≡ (if id =ₛ k then some (f i) else get k e.items)
  pub own : (i : OutboxItem) → (f i).id ≡ i.id
  pub state : (i : OutboxItem) → (f i).state ≡ i.state

transition_lem :
    (id : String) (to : OutboxState) (e : Engine) (i : OutboxItem)
    → get id e.items ≡ some i
    → can_outbox_transition i.state to ≡ true
    → transition id to e ≡ (ok tt, record e { items = put i.id (record i { state = to }) e.items })
unfolding transition
transition_lem id to e i found can = ground (arith, found, can)

-- Marks that are an assignment to fields of the item.
pub change-MarksBy :
    (f : OutboxItem → OutboxItem) (mark : String → Engine → Engine)
    → ((i : OutboxItem) → (f i).id ≡ i.id)
    → ((i : OutboxItem) → (f i).state ≡ i.state)
    → ((id : String) (e : Engine) → (mark id e).items ≡ (change_item id f e).items)
    → MarksBy f mark
unfolding change_item
change-MarksBy f mark own state is = record {
  keyed = λ id e keyed. rw (is id e) (elim (Option-cases (get id e.items)) [
    | inl missing ↦ rw (change_item, missing) keyed
    | inr (i, found) ↦ rw (change_item, found) (Keyed-put item_key i.id (f i) e.items (own i) keyed)
  ]);
  rows = λ id e i at found k.
      rw (is id e, change_item, found) (rw (get-put i.id k (f i) e.items, at) refl);
  own = own;
  state = state;
}

-- Marks that leave the items.
pub still-MarksBy :
    (mark : String → Engine → Engine)
    → ((id : String) (e : Engine) → (mark id e).items ≡ e.items)
    → MarksBy (λ i. i) mark
still-MarksBy mark same = record {
  keyed = λ id e keyed. rw (same id e) keyed;
  rows = λ id e i at found k. rw (same id e) (elim (Bool-cases (id =ₛ k)) [
    | inl is ↦ rw is (ap (λ j. get j e.items) (sym ((eq_iff id k).0 is)) ∙ found)
    | inr differs ↦ rw differs refl
  ]);
  own = λ i. refl;
  state = λ i. refl;
}

twice :
    (b : Bool) (x y z : Option OutboxItem)
    → (if b then x else (if b then y else z)) ≡ (if b then x else z)
twice true x y z = refl
twice false x y z = refl

over :
    (a id k : String) (x v o o' : Option OutboxItem)
    → a ≡ id
    → o' ≡ (if id =ₛ k then v else o)
    → (if a =ₛ k then x else o') ≡ (if id =ₛ k then x else o)
over a id k x v o o' own e = rw (own, e) (twice (id =ₛ k) x v o)

all_may-same :
    (to : OutboxState) (t t' : Table OutboxItem) (id : String) (ids : List String)
    → ((k : String) → (id =ₛ k) ≡ false → get k t' ≡ get k t)
    → includes ids id ≡ false
    → all_may to t' ids ≡ all_may to t ids
all_may-same to t t' id [] same out = refl
all_may-same to t t' id (j ∷ ids) same out =
    let here = same j (ground (arith, out, eq_iff id j, eq_iff j id)) in
    rw (here, all_may-same to t t' id ids same (ground (arith, out))) refl

-- The turn of an item that may move.
record Turned (f : OutboxItem → OutboxItem) (to : OutboxState) (id : String) (e : Engine)
    (m : Result (Unit {0}) × Engine) : Type 0 where
  calm : m.0 ≡ ok tt
  keyed : Keyed item_key m.1.items
  rows :
      (k : String)
      → get k m.1.items ≡ (if id =ₛ k then moved f to (get k e.items) else get k e.items)

both :
    (f : OutboxItem → OutboxItem) (to : OutboxState) (id k : String) (ids : List String)
    (o o' : Option OutboxItem)
    → o' ≡ (if id =ₛ k then moved f to o else o)
    → includes ids id ≡ false
    → (if includes ids k then moved f to o' else o')
      ≡ (if includes (id ∷ ids) k then moved f to o else o)
both f to id k ids o o' e out = elim (Bool-cases (id =ₛ k)) [
  | inl same ↦
      let never : includes ids k ≡ false = ap (includes ids) (sym ((eq_iff id k).0 same)) ∙ out in
      rw (e, same, never) refl
  | inr differs ↦ rw (e, differs) refl
]

module _ (f : OutboxItem → OutboxItem) (mark : String → Engine → Engine) (by : MarksBy f mark)
    (to : OutboxState) where
  at_key :
      (id k : String) (i : OutboxItem) (o : Option OutboxItem)
      → (id ≡ k → o ≡ some i)
      → (if id =ₛ k then some (record (f i) { state = to }) else o)
        ≡ (if id =ₛ k then moved f to o else o)
  at_key id k i o here = elim (Bool-cases (id =ₛ k)) [
    | inl same ↦ rw (same, here ((eq_iff id k).0 same)) refl
    | inr differs ↦ rw differs refl
  ]

  turn :
      (id : String) (e : Engine) (i : OutboxItem)
      → Keyed item_key e.items
      → get id e.items ≡ some i
      → can_outbox_transition i.state to ≡ true
      → Turned f to id e (transition id to (mark id e))
  turn id e i keyed found can =
      let own : i.id ≡ id = get-Keyed item_key id e.items i keyed found in
      let rows = by.rows id e i own found in
      let here : get id (mark id e).items ≡ some (f i) = rows id ∙ rw (eq_refl id) refl in
      let own' : (f i).id ≡ id = by.own i ∙ own in
      let g : OutboxItem = record (f i) { state = to } in
      let does = transition_lem id to (mark id e) (f i) here (rw (by.state i) can) in
      rw does (record {
        calm = refl;
        keyed = Keyed-put item_key (f i).id g (mark id e).items refl (by.keyed id e keyed);
        rows = λ k.
            (get-put (f i).id k g (mark id e).items
              ∙ over (f i).id id k (some g) (some (f i)) (get k e.items) (get k (mark id e).items)
                  own' (rows k))
            ∙ at_key id k i (get k e.items) (λ same. ap (λ j. get j e.items) (sym same) ∙ found);
      })

  -- The loop ends without a throw, and each item of the list has had its turn.
  pub move_each_lem :
      (ids : List String) (e : Engine)
      → Keyed item_key e.items
      → distinct ids ≡ true
      → all_may to e.items ids ≡ true
      → ((move_each mark to ids e).0 ≡ ok tt)
        × RowsMoved f to ids e.items (move_each mark to ids e).1.items
  unfolding move_each
  move_each_lem [] e keyed apart may = (refl, λ k. refl)
  move_each_lem (id ∷ ids) e keyed apart may =
      let first : may_move to (get id e.items) ≡ true =
        &&-left (may_move to (get id e.items)) (all_may to e.items ids) may in
      let out : includes ids id ≡ false = ground (arith, apart) in
      elim (Option-cases (get id e.items)) [
        | inl missing ↦
            let never : false ≡ true = ap (may_move to) (sym missing) ∙ first in
            absurd (ground arith)
        | inr (i, found) ↦
            let t = turn id e i keyed found (ap (may_move to) (sym found) ∙ first) in
            let e' : Engine = (transition id to (mark id e)).1 in
            let rest = move_each_lem ids e' t.keyed (ground (arith, apart)) (
              all_may-same to e.items e'.items id ids (λ k differs. t.rows k ∙ rw differs refl) out
              ∙ &&-right (may_move to (get id e.items)) (all_may to e.items ids) may) in
            let steps : move_each mark to (id ∷ ids) e ≡ move_each mark to ids e' =
              after_ok (transition id to) (move_each mark to ids) (mark id e) e'
                (ap (λ r. (r, e')) t.calm) in
            rw steps (
              rest.0,
              λ k. rest.1 k ∙ both f to id k ids (get k e.items) (get k e'.items) (t.rows k) out,
            )
      ]
