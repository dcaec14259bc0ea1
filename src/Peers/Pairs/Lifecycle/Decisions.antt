-- ===== src/Peers/Pairs/Lifecycle/Decisions.antt =====
-- packages/core/src/v2/peers/pairs.ts: what create, approve, cancel and get may write.
use latticeag_gateway.Base.{
  ℕ, ◌+◌, String, true, ◌&&◌, ◌≡◌, ◌⊎◌, inl, inr, refl, Option, none, some, List, [], ◌∷◌, arith,
  leb, if◌then◌else◌, Option-cases,
}
use latticeag_gateway.Base.Table.{get, put, Keyed, get-put_self}
use latticeag_gateway.Base.Table.Later.{put_table, then_table}
use latticeag_gateway.Protocol.Errors.{ErrorCode, RpcError, forbidden}
use latticeag_gateway.Protocol.Peers.{Scope, PairState, is_live, locked, expired, cancelled}
use latticeag_gateway.Exec.{Result, ok, err}
use latticeag_gateway.Peers.Ports.{PairRecord, Store}
use latticeag_gateway.Peers.Pairs.{Config, get_pair, transition, assert_live, fail_attempt}
use latticeag_gateway.Peers.Pairs.Operations.{
  Fresh, CreateParams, ApproveParams, invited, create_invitation, noted, check_code_given,
  get_pair_view, check_scopes, commit_approval, approve, cancel,
}
use latticeag_gateway.Peers.Pairs.Attempts.{put-put, lock_lem, dead_lock}
use latticeag_gateway.Peers.Pairs.Binding.{assert_live_ok}
use latticeag_gateway.Peers.Pairs.Commit.{commit_approval_ok}
use latticeag_gateway.Peers.Pairs.Lifecycle.{
  PairLater, PairLater-refl, PairLater-trans, Lives, pair_key, stays, writes,
}
use latticeag_gateway.Peers.Pairs.Lifecycle.Checks.{assert_live-Lives}
use latticeag_gateway.Peers.Pairs.Lifecycle.Operations.{own_row}

scopes_write :
    (admit : Scope → Option RpcError) (invited scopes : List Scope) (s : Store)
    → (check_scopes admit invited scopes s).1 ≡ s
unfolding check_scopes
scopes_write admit invited [] s = refl
scopes_write admit invited (x ∷ xs) s = ground (arith, scopes_write admit invited xs s)

module _ (s : Store) (keyed : Keyed pair_key s.pairs) where
  pub create-Lives :
      (c : Config) (now : ℕ) (f : Fresh) (p : CreateParams)
      → get f.pair s.pairs ≡ none
      → Lives s (create_invitation c now f p s).1
  create-Lives c now f p fresh = elim shape [
    | inl same ↦ rw same (stays s keyed)
    | inr eq ↦ rw eq (
        put_table pair_key PairLater PairLater-refl PairLater-trans s.pairs f.pair
          (invited c now f p) keyed refl (rw fresh tt))
  ]
    where
      shape :
          ((create_invitation c now f p s).1 ≡ s)
          ⊎ ((create_invitation c now f p s).1
              ≡ record s { pairs = put f.pair (invited c now f p) s.pairs })
      shape = unfold create_invitation in ground arith

  module _ (r : PairRecord) (found : get r.pair s.pairs ≡ some r) where
    commit_err :
        (admit : Scope → Option RpcError) (p : ApproveParams) (e : RpcError) (s' : Store)
        → commit_approval admit p r s ≡ (err e, s')
        → s' ≡ s
    unfolding commit_approval transition
    commit_err admit p e s' h = ground (arith, scopes_write admit r.scopes p.scopes s)

    commit-Lives :
        (admit : Scope → Option RpcError) (p : ApproveParams)
        → Lives s (commit_approval admit p r s).1
    commit-Lives admit p = go (commit_approval admit p r s) refl
      where
        go :
            (o : Result (String × PairState) × Store)
            → commit_approval admit p r s ≡ o
            → Lives s o.1
        go (err e, s') h = rw (commit_err admit p e s' h) (stays s keyed)
        go (ok out, s') h =
            let (state, proposal, key, scopes, wrote) = commit_approval_ok admit p r s s' out h in
            rw wrote (
              writes s keyed r _ found
                (record { binding = refl; attempts = omega arith; settled = inl (ground arith) }))

    cancel_writes :
        is_live r.state ≡ true
        → (transition r cancelled s).1
          ≡ record s { pairs = put r.pair (record r { state = cancelled }) s.pairs }
    unfolding transition
    cancel_writes live = ground arith

    -- A failed attempt, whatever the state of the row.
    attempt_writes :
        (code : ErrorCode)
        → (fail_attempt r code s).1 ≡ record s {
          pairs =
              put r.pair
                (record r {
                  attempts = r.attempts + 1;
                  state = if leb 5 (r.attempts + 1) && is_live r.state then locked else r.state;
                })
                s.pairs;
        }
    unfolding fail_attempt
    attempt_writes code =
        let r' : PairRecord = record r { attempts = r.attempts + 1 } in
        ground (
          arith,
          lock_lem r' (record s { pairs = put r.pair r' s.pairs }),
          dead_lock r' (record s { pairs = put r.pair r' s.pairs }),
          put-put r.pair (record r' { state = locked }) r' s.pairs,
        )

    attempt-Lives : (code : ErrorCode) → Lives s (fail_attempt r code s).1
    attempt-Lives code = rw (attempt_writes code) (
        writes s keyed r _ found
          (record { binding = refl; attempts = omega arith; settled = ground arith }))

    given-Lives : (c : Config) (code : Option String) → Lives s (check_code_given c r code s).1
    given-Lives c code = elim (shape code) [
      | inl same ↦ rw same (stays s keyed)
      | inr eq ↦ rw eq (attempt-Lives forbidden)
    ]
      where
        shape :
            (o : Option String)
            → ((check_code_given c r o s).1 ≡ s)
              ⊎ ((check_code_given c r o s).1 ≡ (fail_attempt r forbidden s).1)
        shape none = inl (unfold check_code_given in refl)
        shape (some x) = unfold check_code_given in ground arith

module _ (c : Config) (now : ℕ) (s : Store) (keyed : Keyed pair_key s.pairs) where
  cancel_missing : (pair : String) → get pair s.pairs ≡ none → (cancel c now pair s).1 ≡ s
  unfolding cancel get_pair
  cancel_missing pair gone = ground arith

  approve_missing :
      (admit : Scope → Option RpcError) (p : ApproveParams)
      → get p.pair s.pairs ≡ none
      → (approve c admit now p s).1 ≡ s
  unfolding approve get_pair
  approve_missing admit p gone = ground arith

  get_missing :
      (pair : String) (code : Option String)
      → get pair s.pairs ≡ none
      → (get_pair_view c now pair code s).1 ≡ s
  unfolding get_pair_view get_pair
  get_missing pair code gone = ground arith

  noted_writes :
      (r : PairRecord)
      → (noted c now r s ≡ (ok r, s))
        ⊎ ((is_live r.state ≡ true)
            × (noted c now r s ≡ (
              ok (record r { state = expired }),
              record s { pairs = put r.pair (record r { state = expired }) s.pairs },
            )))
  unfolding noted transition
  noted_writes r = ground arith

  get_writes :
      (pair : String) (code : Option String) (r r1 : PairRecord) (s1 : Store)
      → get pair s.pairs ≡ some r
      → noted c now r s ≡ (ok r1, s1)
      → (get_pair_view c now pair code s).1 ≡ (check_code_given c r1 code s1).1
  unfolding get_pair_view get_pair
  get_writes pair code r r1 s1 found h = ground arith

  pub cancel-Lives : (pair : String) → Lives s (cancel c now pair s).1
  cancel-Lives pair = elim (Option-cases (get pair s.pairs)) [
    | inl gone ↦ rw (cancel_missing pair gone) (stays s keyed)
    | inr (r, found) ↦
        go r found (own_row pair s r keyed found) (assert_live c now r s) refl
          (assert_live-Lives c now s keyed r (own_row pair s r keyed found))
  ]
    where
      go :
          (r : PairRecord)
          → get pair s.pairs ≡ some r
          → get r.pair s.pairs ≡ some r
          → (o : Result (Unit {0}) × Store) → assert_live c now r s ≡ o
          → Lives s o.1
          → Lives s (cancel c now pair s).1
      go r found own (err e, s') h l =
          let same : (cancel c now pair s).1 ≡ s' = unfold cancel get_pair in ground arith in
          rw same l
      go r found own (ok u, s') h l =
          let a = assert_live_ok c now r s s' h in
          let wrote = cancel_writes s keyed r own a.2 in
          let same : (cancel c now pair s).1
              ≡ record s { pairs = put r.pair (record r { state = cancelled }) s.pairs } =
            unfold cancel get_pair in ground (arith, a.0, wrote) in
          rw same (
            writes s keyed r _ own
              (record { binding = refl; attempts = omega arith; settled = inl a.2 }))

  pub approve-Lives :
      (admit : Scope → Option RpcError) (p : ApproveParams) → Lives s (approve c admit now p s).1
  approve-Lives admit p = elim (Option-cases (get p.pair s.pairs)) [
    | inl gone ↦ rw (approve_missing admit p gone) (stays s keyed)
    | inr (r, found) ↦
        go r found (own_row p.pair s r keyed found) (assert_live c now r s) refl
          (assert_live-Lives c now s keyed r (own_row p.pair s r keyed found))
  ]
    where
      go :
          (r : PairRecord)
          → get p.pair s.pairs ≡ some r
          → get r.pair s.pairs ≡ some r
          → (o : Result (Unit {0}) × Store) → assert_live c now r s ≡ o
          → Lives s o.1
          → Lives s (approve c admit now p s).1
      go r found own (err e, s') h l =
          let same : (approve c admit now p s).1 ≡ s' = unfold approve get_pair in ground arith in
          rw same l
      go r found own (ok u, s') h l =
          let a = assert_live_ok c now r s s' h in
          let cases : ((approve c admit now p s).1 ≡ s)
              ⊎ ((approve c admit now p s).1 ≡ (commit_approval admit p r s).1) =
            unfold approve get_pair in ground (arith, a.0) in
          elim cases [
            | inl same ↦ rw same (stays s keyed)
            | inr same ↦ rw same (commit-Lives s keyed r own admit p)
          ]

  get-Lives-of :
      (pair : String) (code : Option String) (r : PairRecord)
      → get pair s.pairs ≡ some r
      → get r.pair s.pairs ≡ some r
      → Lives s (get_pair_view c now pair code s).1
  get-Lives-of pair code r found own = elim (noted_writes r) [
    | inl same ↦ rw (get_writes pair code r r s found same) (given-Lives s keyed r own c code)
    | inr (live, eq) ↦
        let r1 : PairRecord = record r { state = expired } in
        let s1 : Store = record s { pairs = put r.pair r1 s.pairs } in
        let first =
          writes s keyed r r1 own
            (record { binding = refl; attempts = omega arith; settled = inl live }) in
        rw (get_writes pair code r r1 s1 found eq) (
          then_table pair_key PairLater PairLater-refl PairLater-trans s.pairs s1.pairs _ first
            (given-Lives s1 first.keyed r1 (get-put_self r.pair r1 s.pairs) c code))
  ]

  pub get-Lives :
      (pair : String) (code : Option String) → Lives s (get_pair_view c now pair code s).1
  get-Lives pair code = elim (Option-cases (get pair s.pairs)) [
    | inl gone ↦ rw (get_missing pair code gone) (stays s keyed)
    | inr (r, found) ↦ get-Lives-of pair code r found (own_row pair s r keyed found)
  ]
