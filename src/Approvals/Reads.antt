-- ===== src/Approvals/Reads.antt =====
-- Requests, and the reads that write expiries.
use latticeag_gateway.Base.{
  ℕ, String, true, ◌≡◌, ◌≢◌, ◌⊎◌, inl, inr, Option, none, some, List, [], ◌∷◌, arith, eq_iff,
  Bool-cases, All, Option-cases, ◌&&◌,
}
use latticeag_gateway.Base.Int.{is_safe, reached}
use latticeag_gateway.Base.Sort.{sort, All-sort}
use latticeag_gateway.Base.Table.{get, put, values, Keyed, get-put}
use latticeag_gateway.Base.Table.Rows.{Held, Distinct, Held-values, Distinct-values, Distinct-sort}
use latticeag_gateway.Protocol.Errors.{RpcError}
use latticeag_gateway.Exec.{ok, err}
use latticeag_gateway.Approvals.{
  NativeRef, RequestParams, ListParams, ApprovalRecord, ApprovalCaller, Store, pending, expired,
  get_live, expire_all, request, list, is_pending, older, get_view, validate_native_ref,
  validate_object_ref, requester_of,
}
use latticeag_gateway.Approvals.Lifecycle.{
  StoreLater, key, StoreLater-refl, StoreLater-trans, expired-Later, own_key,
}

module _ (commitment : NativeRef → String) (now : ℕ) (id : String) (p : RequestParams)
    (caller : Option ApprovalCaller) (s : Store) where
  -- A request that succeeds stores one new row under the minted id: PENDING at revision 1, with no
  -- authority and no decision, bound to the action that the parameters give and to its commitment.
  pub request_binds :
      (r : ApprovalRecord) (s' : Store)
      → request commitment now id p caller s ≡ (ok r, s')
      → (s' ≡ put id r s)
        × (r.approval ≡ id)
        × (r.state ≡ pending)
        × (r.revision ≡ 1)
        × (r.authority ≡ "NONE")
        × (r.decision ≡ none)
        × (validate_native_ref p.action "action" ≡ ok r.action)
        × (validate_object_ref p.native "native" ≡ ok r.native)
        × (r.action_hash ≡ commitment r.action)
        × (r.requester ≡ requester_of caller)
        × (is_safe r.expires_ms ≡ true)
  unfolding request
  request_binds r s' h = ground arith

  pub request_err :
      (e : RpcError) (s' : Store) → request commitment now id p caller s ≡ (err e, s') → s' ≡ s
  unfolding request
  request_err e s' h = ground arith

module _ (now : ℕ) (s : Store) (keyed : Keyed key s) where
  pub get-Later : (k : String) → StoreLater s (get_view now k s).1
  get-Later k = elim (Option-cases (get k s)) [
    | inl gone ↦ rw (missing gone) (StoreLater-refl s keyed)
    | inr (r, found) ↦ elim (shape r found) [
      | inl same ↦ rw same (StoreLater-refl s keyed)
      | inr (open_row, eq) ↦ rw eq (expired-Later s keyed r (own_key s keyed k r found) open_row)
    ]
  ]
    where
      missing : get k s ≡ none → (get_view now k s).1 ≡ s
      missing h = unfold get_view get_live in ground arith

      shape :
          (r : ApprovalRecord)
          → get k s ≡ some r
          → ((get_view now k s).1 ≡ s)
            ⊎ ((r.state ≡ pending)
                × ((get_view now k s).1 ≡ put r.approval (record r { state = expired }) s))
      shape r h = unfold get_view get_live in ground arith

-- The rows that are left to do are held still, so each write is the expiry of a row in its place.
expire_all-Later :
    (now : ℕ) (rows : List ApprovalRecord) (s : Store)
    → Keyed key s
    → Held key s rows
    → Distinct key rows
    → StoreLater s (expire_all now rows s)
unfolding expire_all
expire_all-Later now [] s keyed held apart = StoreLater-refl s keyed
expire_all-Later now (r ∷ rows) s keyed (found, held) (apart, distinct) =
    elim (Bool-cases (is_pending r && reached now r.expires_ms)) [
      | inl due ↦ rw due (
          let first = expired-Later s keyed r found (ground arith) in
          StoreLater-trans s (put r.approval (record r { state = expired }) s) _ first (
            expire_all-Later now rows (put r.approval (record r { state = expired }) s) first.keyed
              (still rows apart held) distinct))
      | inr quiet ↦ rw quiet (expire_all-Later now rows s keyed held distinct)
    ]
  where
    still :
        (qs : List ApprovalRecord)
        → All (λ q. r.approval ≢ q.approval) qs
        → Held key s qs
        → Held key (put r.approval (record r { state = expired }) s) qs
    still [] a h = tt
    still (q ∷ qs) a h = (
      ground (
        arith,
        get-put r.approval q.approval (record r { state = expired }) s,
        eq_iff r.approval q.approval,
      ),
      still qs a.1 h.1,
    )

list-store :
    (now : ℕ) (p : ListParams) (s : Store)
    → ((list now p s).1 ≡ s) ⊎ ((list now p s).1 ≡ expire_all now (sort older (values s)) s)
unfolding list
list-store now p s = ground arith

pub list-Later :
    (now : ℕ) (p : ListParams) (s : Store) → Keyed key s → StoreLater s (list now p s).1
list-Later now p s keyed = elim (list-store now p s) [
  | inl same ↦ rw same (StoreLater-refl s keyed)
  | inr eq ↦ rw eq (
      expire_all-Later now (sort older (values s)) s keyed
        (All-sort older (λ r. get (key r) s ≡ some r) (values s) (Held-values key s keyed))
        (Distinct-sort key older (values s) (Distinct-values key s keyed)))
]
