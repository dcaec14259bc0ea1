-- ===== src/Approvals/Calls.antt =====
-- Every call of the approval manager, and what any sequence of calls leaves of a row.
use latticeag_gateway.Base.{
  ℕ, String, ◌≡◌, refl, inl, inr, Option, none, some, List, [], ◌∷◌, arith, Option-cases,
}
use latticeag_gateway.Base.Table.{get, Keyed}
use latticeag_gateway.Exec.{Result, ok, err}
use latticeag_gateway.Approvals.{
  NativeRef, RequestParams, DecideParams, ListParams, ApprovalRecord, ApprovalCaller, Store,
  request, decide, cancel, list, get_view,
}
use latticeag_gateway.Approvals.Decide.{decide_ok, decide_err, decide_missing}
use latticeag_gateway.Approvals.Cancel.{cancel_ok, cancel_err, cancel_missing}
use latticeag_gateway.Approvals.Reads.{request_binds, request_err, get-Later, list-Later}
use latticeag_gateway.Approvals.Lifecycle.{
  RowLater, StoreLater, key, StoreLater-refl, StoreLater-trans, put-Later, put_new, expired-Later,
  own_key,
}

-- The calls, each with the clock that it reads; a request has the id that is minted for it.
pub data Call : Type 0 where
  requests : ℕ → String → RequestParams → Option ApprovalCaller → Call
  decides : ℕ → DecideParams → Option ApprovalCaller → Call
  cancels : ℕ → String → ℕ → Option ApprovalCaller → Call
  gets : ℕ → String → Call
  lists : ℕ → ListParams → Call

module _ (commitment : NativeRef → String) where
  pub step : Call → Store → Store
  step (requests now id p caller) s = (request commitment now id p caller s).1
  step (decides now p caller) s = (decide commitment now p caller s).1
  step (cancels now approval revision caller) s = (cancel now approval revision caller s).1
  step (gets now approval) s = (get_view now approval s).1
  step (lists now p) s = (list now p s).1

  pub run : List Call → Store → Store
  run [] s = s
  run (c ∷ cs) s = run cs (step c s)

  -- The allocator mints ids that no row has.
  abbrev pub MintsFresh : Call → Store → Type 0
  MintsFresh (requests now id p caller) s = get id s ≡ none
  MintsFresh _ s = Unit {0}

  abbrev pub AllMintFresh : List Call → Store → Type 0
  AllMintFresh [] s = Unit {0}
  AllMintFresh (c ∷ cs) s = MintsFresh c s × AllMintFresh cs (step c s)

  module _ (s : Store) (keyed : Keyed key s) where
    decide-Later :
        (now : ℕ) (p : DecideParams) (caller : Option ApprovalCaller)
        → StoreLater s (decide commitment now p caller s).1
    decide-Later now p caller = elim (Option-cases (get p.approval s)) [
      | inl gone ↦ rw ((decide_missing commitment now p caller s gone).0) (StoreLater-refl s keyed)
      | inr (r, found) ↦ go r found (decide commitment now p caller s) refl
    ]
      where
        go :
            (r : ApprovalRecord)
            → get p.approval s ≡ some r
            → (o : Result ApprovalRecord × Store) → decide commitment now p caller s ≡ o
            → StoreLater s o.1
        go r found (ok r', s') h =
            let facts = decide_ok commitment now p caller s r found r' s' h in
            rw (facts.7) (
              put-Later s keyed r r' (own_key s keyed p.approval r found)
                (record { binding = ground arith; revision = ground arith; settled = inl facts.3 }))
        go r found (err e, s') h = elim (decide_err commitment now p caller s r found e s' h) [
          | inl same ↦ rw same (StoreLater-refl s keyed)
          | inr (open_row, due, eq) ↦
              rw eq (expired-Later s keyed r (own_key s keyed p.approval r found) open_row)
        ]

    cancel-Later :
        (now : ℕ) (approval : String) (revision : ℕ) (caller : Option ApprovalCaller)
        → StoreLater s (cancel now approval revision caller s).1
    cancel-Later now approval revision caller = elim (Option-cases (get approval s)) [
      | inl gone ↦
          rw ((cancel_missing now approval revision caller s gone).0) (StoreLater-refl s keyed)
      | inr (r, found) ↦ go r found (cancel now approval revision caller s) refl
    ]
      where
        go :
            (r : ApprovalRecord)
            → get approval s ≡ some r
            → (o : Result ApprovalRecord × Store) → cancel now approval revision caller s ≡ o
            → StoreLater s o.1
        go r found (ok r', s') h =
            let (can, eq, wrote) = cancel_ok now approval revision caller s r found r' s' h in
            rw wrote (
              put-Later s keyed r r' (own_key s keyed approval r found) (record {
                binding = ground arith;
                revision = ground arith;
                settled = inl can.pending_row;
              }))
        go r found (err e, s') h = elim (cancel_err now approval revision caller s r found e s' h) [
          | inl same ↦ rw same (StoreLater-refl s keyed)
          | inr (open_row, due, eq) ↦
              rw eq (expired-Later s keyed r (own_key s keyed approval r found) open_row)
        ]

    request-Later :
        (now : ℕ) (id : String) (p : RequestParams) (caller : Option ApprovalCaller)
        → get id s ≡ none
        → StoreLater s (request commitment now id p caller s).1
    request-Later now id p caller fresh = go (request commitment now id p caller s) refl
      where
        go :
            (o : Result ApprovalRecord × Store)
            → request commitment now id p caller s ≡ o
            → StoreLater s o.1
        go (ok r, s') h =
            let facts = request_binds commitment now id p caller s r s' h in
            rw (facts.0) (put_new s keyed id r fresh facts.1)
        go (err e, s') h =
            rw (request_err commitment now id p caller s e s' h) (StoreLater-refl s keyed)

  step-Later : (c : Call) (s : Store) → Keyed key s → MintsFresh c s → StoreLater s (step c s)
  unfolding step
  step-Later (requests now id p caller) s keyed fresh = request-Later s keyed now id p caller fresh
  step-Later (decides now p caller) s keyed fresh = decide-Later s keyed now p caller
  step-Later (cancels now approval revision caller) s keyed fresh =
      cancel-Later s keyed now approval revision caller
  step-Later (gets now approval) s keyed fresh = get-Later now s keyed approval
  step-Later (lists now p) s keyed fresh = list-Later now p s keyed

  run-Later :
      (cs : List Call) (s : Store) → Keyed key s → AllMintFresh cs s → StoreLater s (run cs s)
  unfolding run
  run-Later [] s keyed fresh = StoreLater-refl s keyed
  run-Later (c ∷ cs) s keyed (now_fresh, fresh) =
      let first = step-Later c s keyed now_fresh in
      StoreLater-trans s (step c s) (run cs (step c s)) first
        (run-Later cs (step c s) first.keyed fresh)

  -- Whatever calls follow, in any order, at any times and by any callers: if rows stand under their
  -- own ids and the ids that requests mint are new, every row lives on with the action, commitment, target, expiry and requester that
  -- it was requested with, at a revision no lower, and once it is not PENDING it never changes again.
  pub calls_keep_bindings :
      (cs : List Call) (s : Store)
      → Keyed key s
      → AllMintFresh cs s
      → (k : String) → RowLater (get k s) (get k (run cs s))
  calls_keep_bindings cs s keyed fresh k = (run-Later cs s keyed fresh).rows k
