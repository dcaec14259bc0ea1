-- ===== src/Peers/Pairs/Calls.antt =====
-- The calls on pairs of every client, and what any sequence of them leaves of a pair.
use latticeag_gateway.Base.{
  ℕ, String, ◌≡◌, refl, inl, Option, none, some, List, [], ◌∷◌, arith, ap, ◌∙◌,
}
use latticeag_gateway.Base.Table.{get, Keyed}
use latticeag_gateway.Base.Table.Later.{EntryLater, then_table}
use latticeag_gateway.Protocol.Errors.{RpcError}
use latticeag_gateway.Protocol.Values.{Value}
use latticeag_gateway.Protocol.Peers.{Scope, consumed}
use latticeag_gateway.Exec.{Result, ok, err, Exec, ◌>>=◌, ◌>>◌}
use latticeag_gateway.Peers.Ports.{PairRecord, Store}
use latticeag_gateway.Peers.Registration.{Registration}
use latticeag_gateway.Peers.Pairs.{Config, validate_registration, throw_some}
use latticeag_gateway.Peers.Pairs.Operations.{
  Fresh, CreateParams, ApproveParams, create_invitation, propose, get_pair_view, approve, cancel,
  assert_registerable, consume,
}
use latticeag_gateway.Peers.Pairs.Binding.{registers_only_approved}
use latticeag_gateway.Peers.Pairs.Once.{consume_lem}
use latticeag_gateway.Peers.Pairs.Lifecycle.{
  PairLater, PairLater-refl, PairLater-trans, Lives, pair_key, stays, writes,
}
use latticeag_gateway.Peers.Pairs.Lifecycle.Operations.{own_row, validate-Lives, propose-Lives}
use latticeag_gateway.Peers.Pairs.Lifecycle.Decisions.{
  create-Lives, approve-Lives, cancel-Lives, get-Lives,
}

-- The part of agent.register in packages/core/src/v2/peers/service.ts that touches pairs: the check,
-- what the allocation in between throws, and the commit.
unfoldable pub enroll :
    Config → (String → Option RpcError) → ℕ → Value → Option RpcError → Exec Store (Unit {0})
enroll c limiter now v between = do
  (r, reg, scopes) ← assert_registerable c limiter now v
  throw_some between
  consume r reg

-- The calls, each with the clock that it reads and what comes from outside.
pub data Call : Type 0 where
  creates : ℕ → Fresh → CreateParams → Call
  proposes : (String → Option RpcError) → ℕ → Value → Call
  looks : ℕ → String → Option String → Call
  approves : (Scope → Option RpcError) → ℕ → ApproveParams → Call
  cancels : ℕ → String → Call
  registers : (String → Option RpcError) → ℕ → Value → Option RpcError → Call

module _ (c : Config) where
  unfoldable pub step : Call → Store → Store
  step (creates now f p) s = (create_invitation c now f p s).1
  step (proposes limiter now v) s = (propose c limiter now v s).1
  step (looks now pair code) s = (get_pair_view c now pair code s).1
  step (approves admit now p) s = (approve c admit now p s).1
  step (cancels now pair) s = (cancel c now pair s).1
  step (registers limiter now v between) s = (enroll c limiter now v between s).1

  pub run : List Call → Store → Store
  run [] s = s
  run (x ∷ xs) s = run xs (step x s)

  -- The allocator mints ids that no row has.
  abbrev pub MintsFresh : Call → Store → Type 0
  MintsFresh (creates now f p) s = get f.pair s.pairs ≡ none
  MintsFresh _ s = Unit {0}

  abbrev pub AllMintFresh : List Call → Store → Type 0
  AllMintFresh [] s = Unit {0}
  AllMintFresh (x ∷ xs) s = MintsFresh x s × AllMintFresh xs (step x s)

  module _ (limiter : String → Option RpcError) (now : ℕ) (v : Value) (between : Option RpcError)
      (s : Store) where
    enroll_passed :
        (r : PairRecord) (reg : Registration) (scopes : List Scope) (s' : Store)
        → assert_registerable c limiter now v s ≡ (ok (r, reg, scopes), s')
        → (enroll c limiter now v between s).1 ≡ ((throw_some between >> consume r reg) s').1
    unfolding enroll
    enroll_passed r reg scopes s' h = ground arith

    enroll_failed :
        (e : RpcError) (s' : Store)
        → assert_registerable c limiter now v s ≡ (err e, s')
        → (enroll c limiter now v between s).1 ≡ s'
    unfolding enroll
    enroll_failed e s' h = ground arith

    assert_same :
        (assert_registerable c limiter now v s).1 ≡ (validate_registration c limiter now v s).1
    unfolding assert_registerable
    assert_same = ground arith

    enroll-Lives : Keyed pair_key s.pairs → Lives s (enroll c limiter now v between s).1
    enroll-Lives keyed =
        go (assert_registerable c limiter now v s) refl
          (rw assert_same (validate-Lives c limiter now v s keyed))
      where
        commit :
            (b : Option RpcError) (r : PairRecord) (reg : Registration) (scopes : List Scope)
            → assert_registerable c limiter now v s ≡ (ok (r, reg, scopes), s)
            → Lives s ((throw_some b >> consume r reg) s).1
        commit (some e) r reg scopes h = stays s keyed
        commit none r reg scopes h =
            let (u, shape, authentic, state, approval) =
              registers_only_approved c limiter now v s s r reg scopes h in
            let a = authentic.answers in
            rw (consume_lem r reg a.challenge s state a.issued a.unconsumed) (
              writes s keyed r (record r { state = consumed })
                (own_row reg.pair s r keyed authentic.row)
                (record { binding = refl; attempts = omega arith; settled = inl authentic.live }))

        go :
            (o : Result (PairRecord × Registration × List Scope) × Store)
            → assert_registerable c limiter now v s ≡ o
            → Lives s o.1
            → Lives s (enroll c limiter now v between s).1
        go (err e, s') h l = rw (enroll_failed e s' h) l
        go (ok (r, reg, scopes), s') h l =
            let same = (registers_only_approved c limiter now v s s' r reg scopes h).0 in
            rw (enroll_passed r reg scopes s' h, same)
              (commit between r reg scopes (h ∙ ap (λ x. (ok (r, reg, scopes), x)) same))

  step-Lives : (x : Call) (s : Store) → Keyed pair_key s.pairs → MintsFresh x s → Lives s (step x s)
  unfolding step
  step-Lives (creates now f p) s keyed fresh = create-Lives s keyed c now f p fresh
  step-Lives (proposes limiter now v) s keyed fresh = propose-Lives c limiter now v s keyed
  step-Lives (looks now pair code) s keyed fresh = get-Lives c now s keyed pair code
  step-Lives (approves admit now p) s keyed fresh = approve-Lives c now s keyed admit p
  step-Lives (cancels now pair) s keyed fresh = cancel-Lives c now s keyed pair
  step-Lives (registers limiter now v between) s keyed fresh =
      enroll-Lives limiter now v between s keyed

  run-Lives :
      (xs : List Call) (s : Store) → Keyed pair_key s.pairs → AllMintFresh xs s → Lives s (run xs s)
  unfolding run
  run-Lives [] s keyed fresh = stays s keyed
  run-Lives (x ∷ xs) s keyed (now_fresh, fresh) =
      let first = step-Lives x s keyed now_fresh in
      then_table pair_key PairLater PairLater-refl PairLater-trans s.pairs (step x s).pairs
        (run xs (step x s)).pairs first (run-Lives xs (step x s) first.keyed fresh)

  -- Whatever calls follow, in any order, at any times and by any clients: if rows stand under their
  -- own ids and the ids that are minted are new, every pair lives on as the invitation that it was created as (code, scopes, role, pinned
  -- key, epoch and expiry), its count of failed attempts never falls, and once it is CONSUMED,
  -- CANCELLED, EXPIRED or LOCKED nothing else of it ever changes.
  pub pairs_settle :
      (xs : List Call) (s : Store)
      → Keyed pair_key s.pairs
      → AllMintFresh xs s
      → (pair : String) → EntryLater PairLater (get pair s.pairs) (get pair (run xs s).pairs)
  pairs_settle xs s keyed fresh pair = (run-Lives xs s keyed fresh).rows pair
