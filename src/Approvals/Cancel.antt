-- ===== src/Approvals/Cancel.antt =====
-- What a cancellation needs and what it writes.
use latticeag_gateway.Base.{
  ℕ, ◌+◌, String, true, false, ◌≡◌, ◌≢◌, ◌⊎◌, ◌↔◌, Option, none, some, arith,
}
use latticeag_gateway.Base.Int.{reached}
use latticeag_gateway.Base.Table.{get, put}
use latticeag_gateway.Protocol.Errors.{RpcError}
use latticeag_gateway.Protocol.Lexical.{is_id}
use latticeag_gateway.Exec.{ok, err}
use latticeag_gateway.Approvals.{
  ApprovalRecord, ApprovalCaller, Store, pending, expired, cancelled, get_live, cancel, who_of,
  may_cancel, is_requester,
}

-- What a cancellation needs of its caller and of the row that it names.
pub record CanCancel (now : ℕ) (approval : String) (expected_revision : ℕ) (c : ApprovalCaller)
    (r : ApprovalRecord) : Type 0 where
  pub role : may_cancel c ≡ true
  pub id : is_id approval ≡ true
  pub requester : is_requester c r ≡ true
  pub revision : expected_revision ≡ r.revision
  pub pending_row : r.state ≡ pending
  pub in_time : reached now r.expires_ms ≡ false

abbrev pub cancelled_row : ApprovalRecord → ApprovalRecord
cancelled_row r = record r { revision = r.revision + 1; state = cancelled }

module _ (now : ℕ) (approval : String) (expected_revision : ℕ) (caller : Option ApprovalCaller)
    (s : Store) where
  pub cancel_missing :
      get approval s ≡ none
      → ((cancel now approval expected_revision caller s).1 ≡ s)
        × ((r' : ApprovalRecord) → (cancel now approval expected_revision caller s).0 ≢ ok r')
  unfolding cancel get_live
  cancel_missing h = (ground arith, λ r' e. ground arith)

  module _ (r : ApprovalRecord) (found : get approval s ≡ some r) where
    pub cancel_ok :
        (r' : ApprovalRecord) (s' : Store)
        → cancel now approval expected_revision caller s ≡ (ok r', s')
        → CanCancel now approval expected_revision (who_of caller) r
          × (r' ≡ cancelled_row r)
          × (s' ≡ put r.approval r' s)
    unfolding cancel get_live
    cancel_ok r' s' h = ground arith

    pub cancel_done :
        CanCancel now approval expected_revision (who_of caller) r
        → cancel now approval expected_revision caller s
          ≡ (ok (cancelled_row r), put r.approval (cancelled_row r) s)
    unfolding cancel get_live
    cancel_done can = ground arith

    pub cancel_err :
        (e : RpcError) (s' : Store)
        → cancel now approval expected_revision caller s ≡ (err e, s')
        → (s' ≡ s)
          ⊎ ((r.state ≡ pending)
              × (reached now r.expires_ms ≡ true)
              × (s' ≡ put r.approval (record r { state = expired }) s))
    unfolding cancel get_live
    cancel_err e s' h = ground arith

  -- The requester of a pending approval cancels it exactly when the approval is in time, the revision
  -- is the row's and the caller is neither a viewer nor a bootstrap principal; the row then moves to
  -- CANCELLED at the next revision and keeps all else.
  pub cancel_exact :
      (r : ApprovalRecord)
      → get approval s ≡ some r
      → CanCancel now approval expected_revision (who_of caller) r ↔ (
          cancel now approval expected_revision caller s
          ≡ (ok (cancelled_row r), put r.approval (cancelled_row r) s))
  cancel_exact r found = (
    cancel_done r found,
    λ h. (cancel_ok r found (cancelled_row r) (put r.approval (cancelled_row r) s) h).0,
  )
