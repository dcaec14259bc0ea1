-- ===== src/Approvals/Decide.antt =====
-- What a decision needs and what it writes.
use latticeag_gateway.Base.{
  ℕ, ◌+◌, String, true, false, ◌≡◌, ◌≢◌, ◌⊎◌, inl, inr, Option, none, some, ap, arith, Option-cases,
}
use latticeag_gateway.Base.Int.{reached}
use latticeag_gateway.Base.Table.{get, put, Keyed, get-Keyed, get-put_self}
use latticeag_gateway.Protocol.Errors.{RpcError, revision_conflict, at}
use latticeag_gateway.Protocol.Lexical.{is_id}
use latticeag_gateway.Exec.{ok, err}
use latticeag_gateway.Approvals.{
  NativeRef, ApprovalRecord, ApprovalCaller, ApprovalState, Decision, Store, pending, expired,
  DecideParams, is_pending, get_live, decide, who_of, is_reviewer, decided_state,
}

-- The state that a recorded decision stands for.
abbrev pub decided_as : Option Decision → Option ApprovalState
decided_as none = none
decided_as (some d) = some (decided_state d)

module _ (commitment : NativeRef → String) (now : ℕ) (p : DecideParams)
    (caller : Option ApprovalCaller) (s : Store) (r : ApprovalRecord)
    (found : get p.approval s ≡ some r) where
  pub decide_ok :
      (r' : ApprovalRecord) (s' : Store)
      → decide commitment now p caller s ≡ (ok r', s')
      → (is_reviewer (who_of caller) ≡ true)
        × (is_id p.approval ≡ true)
        × (p.expected_revision ≡ r.revision)
        × (r.state ≡ pending)
        × (reached now r.expires_ms ≡ false)
        × (decided_as r'.decision ≡ some r'.state)
        × (r' ≡ record r {
          revision = r.revision + 1;
          state = r'.state;
          decision = r'.decision;
          reason = r'.reason;
          decided_ms = some now;
          reviewer = (who_of caller).id;
        })
        × (s' ≡ put r.approval r' s)
  unfolding decide get_live
  decide_ok r' s' h = ground arith

  -- A decision that fails writes nothing, or the expiry of a row that is due.
  pub decide_err :
      (e : RpcError) (s' : Store)
      → decide commitment now p caller s ≡ (err e, s')
      → (s' ≡ s)
        ⊎ ((r.state ≡ pending)
            × (reached now r.expires_ms ≡ true)
            × (s' ≡ put r.approval (record r { state = expired }) s))
  unfolding decide get_live
  decide_err e s' h = ground arith

  -- A reviewer's decision at another revision than the row's is a conflict and writes nothing, if the row is not due.
  pub decide_stale :
      is_reviewer (who_of caller) ≡ true
      → is_id p.approval ≡ true
      → is_pending r ≡ false
      → p.expected_revision ≢ r.revision
      → decide commitment now p caller s ≡ (err (at revision_conflict "expected_revision"), s)
  unfolding decide get_live
  decide_stale a b c d = ground arith

module _ (commitment : NativeRef → String) (now : ℕ) (p : DecideParams)
    (caller : Option ApprovalCaller) (s : Store) where
  -- A decision on an id that no row has fails and writes nothing.
  pub decide_missing :
      get p.approval s ≡ none
      → ((decide commitment now p caller s).1 ≡ s)
        × ((r' : ApprovalRecord) → (decide commitment now p caller s).0 ≢ ok r')
  unfolding decide get_live
  decide_missing h = (ground arith, λ r' e. ground arith)

  -- The first committed decision wins. In a store whose rows stand under their own ids, any later
  -- reviewer's decision at the revision that it used is refused as a revision conflict, whatever it
  -- says and whenever it comes, and changes nothing.
  pub first_commit_wins :
      (r' : ApprovalRecord) (s' : Store)
      → Keyed (λ r. r.approval) s
      → decide commitment now p caller s ≡ (ok r', s')
      → (now' : ℕ) (p' : DecideParams) (caller' : Option ApprovalCaller) → p'.approval ≡ p.approval
      → p'.expected_revision ≡ p.expected_revision
      → is_reviewer (who_of caller') ≡ true
      → decide commitment now' p' caller' s' ≡ (err (at revision_conflict "expected_revision"), s')
  first_commit_wins r' s' keyed h now' p' caller' same_id same_rev reviewer =
      elim (Option-cases (get p.approval s)) [
        | inl gone ↦ absurd ((decide_missing gone).1 r' (ap (λ o. o.0) h))
        | inr (r, found) ↦
            let facts = decide_ok commitment now p caller s r found r' s' h in
            let own : r.approval ≡ p.approval =
              get-Keyed (λ r. r.approval) p.approval s r keyed found in
            decide_stale commitment now' p' caller' s' r'
              (ground (arith, get-put_self r.approval r' s)) reviewer (ground arith) (ground arith)
              (ground arith)
      ]
