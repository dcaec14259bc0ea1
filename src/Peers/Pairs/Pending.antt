-- ===== src/Peers/Pairs/Pending.antt =====
-- packages/core/src/v2/peers/pairs.ts: the bound on pending invitations.
use latticeag_gateway.Base.{
  ℕ, suc, ◌+◌, ◌≤◌, String, Bool, true, ◌≡◌, ◌⊎◌, inl, inr, refl, none, some, [], ◌∷◌, arith,
  eq_refl, Bool-cases, length, filter, leb, ◌=ₛ◌,
}
use latticeag_gateway.Base.Table.{Table, get, put, values, get-put_self}
use latticeag_gateway.Protocol.Errors.{busy, at}
use latticeag_gateway.Exec.{ok, err}
use latticeag_gateway.Peers.Ports.{Store}
use latticeag_gateway.Peers.Pairs.{Config}
use latticeag_gateway.Peers.Pairs.Operations.{
  Fresh, CreateParams, is_pending, invited, pending_count, create_invitation,
}

-- How many rows of a table pass a test, after a row under a new key.
count-put :
    {V : Type 0}
    → (p : V → Bool) (k : String) (v : V) (t : Table V) → get k t ≡ none
    → p v ≡ true
    → length (filter p (values (put k v t))) ≡ suc (length (filter p (values t)))
unfolding get put values
count-put p k v [] fresh h = ground arith
count-put p k v ((j, w) ∷ t) fresh h = elim (Bool-cases (j =ₛ k)) [
  | inl same ↦ absurd (ground arith)
  | inr differs ↦ elim (Bool-cases (p w)) [
    | inl passes ↦ ground (arith, count-put p k v t)
    | inr fails ↦ ground (arith, count-put p k v t)
  ]
]

pending-put :
    (c : Config) (now : ℕ) (f : Fresh) (p : CreateParams) (s : Store)
    → get f.pair s.pairs ≡ none
    → pending_count c now (record s { pairs = put f.pair (invited c now f p) s.pairs })
      ≡ suc (pending_count c now s)
unfolding pending_count
pending-put c now f p s fresh =
    count-put (is_pending c now) f.pair (invited c now f p) s.pairs fresh
      (ground (arith, eq_refl c.epoch))

-- agent.pair.create under a new id either finds 128 or more pending invitations, answers BUSY and
-- writes nothing, or it stores one fresh invitation for 300 seconds, with the hash of the code that it
-- answers, and there are then one more pending invitations than before and 128 at most.
pub invitations_bounded :
    (c : Config) (now : ℕ) (f : Fresh) (p : CreateParams) (s : Store)
    → get f.pair s.pairs ≡ none
    → let (answer, s') = create_invitation c now f p s in
      ((128 ≤ pending_count c now s) × (answer ≡ err (at busy "pair")) × (s' ≡ s))
      ⊎ ((answer ≡ ok (f.pair, f.code, now + 300000))
          × (get f.pair s'.pairs ≡ some (invited c now f p))
          × (pending_count c now s' ≡ suc (pending_count c now s))
          × (pending_count c now s' ≤ 128))
unfolding create_invitation
invitations_bounded c now f p s fresh = elim (Bool-cases (leb 128 (pending_count c now s))) [
  | inl full ↦ inl (ground arith, ground arith, ground arith)
  | inr room ↦
      let one = pending-put c now f p s fresh in
      let there = get-put_self f.pair (invited c now f p) s.pairs in
      rw room (inr (refl, there, one, ground arith))
]
