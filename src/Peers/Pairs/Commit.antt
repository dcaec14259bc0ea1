-- ===== src/Peers/Pairs/Commit.antt =====
-- packages/core/src/v2/peers/pairs.ts: what an approval commits.
use latticeag_gateway.Base.{
  ℕ, String, Bool, true, false, not, ◌&&◌, ◌≡◌, Option, none, some, List, [], ◌∷◌, ltb, all, arith,
  eq_iff, inl, inr, Option-cases,
}
use latticeag_gateway.Base.Table.{get, put}
use latticeag_gateway.Protocol.Errors.{RpcError, forbidden, at}
use latticeag_gateway.Protocol.Peers.{PairState, Scope, awaiting_operator, approved}
use latticeag_gateway.Exec.{ok, throw_if, ◌>>◌}
use latticeag_gateway.Exec.Bind.{then_ok}
use latticeag_gateway.Peers.Ports.{PairRecord, Store}
use latticeag_gateway.Peers.Pairs.{
  Config, get_pair, transition, assert_live, throw_some, same_pair_state, scope_within,
}
use latticeag_gateway.Peers.Pairs.Binding.{assert_live_ok, limiter_ok}
use latticeag_gateway.Peers.Pairs.Operations.{ApproveParams, check_scopes, commit_approval, approve}

abbrev pub is_none : Option RpcError → Bool
is_none none = true
is_none (some e) = false

check_scopes_ok :
    (admit : Scope → Option RpcError) (invited scopes : List Scope) (s s' : Store)
    → check_scopes admit invited scopes s ≡ (ok tt, s')
    → (s' ≡ s) × (all (λ x. scope_within x invited && is_none (admit x)) scopes ≡ true)
unfolding check_scopes
check_scopes_ok admit invited [] s s' h = ground arith
check_scopes_ok admit invited (x ∷ xs) s s' h =
    let within = throw_if (not (scope_within x invited)) (at forbidden "scopes") in
    let rest = check_scopes admit invited xs in
    let (s1, h1, k1) = then_ok within (throw_some (admit x) >> rest) s s' h in
    let (s2, h2, h3) = then_ok (throw_some (admit x)) rest s1 s' k1 in
    let l = limiter_ok (admit x) s1 s2 h2 in
    let ih = check_scopes_ok admit invited xs s2 s' h3 in (ground arith, ground arith)

pub commit_approval_ok :
    (admit : Scope → Option RpcError) (p : ApproveParams) (r : PairRecord) (s s' : Store)
    (out : String × PairState)
    → commit_approval admit p r s ≡ (ok out, s')
    → (r.state ≡ awaiting_operator)
      × (r.proposal ≡ some p.proposal)
      × (r.proposal_key ≡ some p.key)
      × (all (λ x. scope_within x r.scopes && is_none (admit x)) p.scopes ≡ true)
      × (s' ≡ record s {
        pairs =
            put r.pair
              (record r {
                state = approved;
                approval = some (record { proposal = p.proposal; key = p.key; scopes = p.scopes });
              })
              s.pairs;
      })
unfolding commit_approval transition
commit_approval_ok admit p r s s' out h = elim (Option-cases r.proposal) [
  | inl gone ↦ absurd (ground arith)
  | inr (proposal, has) ↦ elim (Option-cases r.proposal_key) [
    | inl gone ↦ absurd (ground arith)
    | inr (key, has_key) ↦
        let s1 : Store = (check_scopes admit r.scopes p.scopes s).1 in
        let passed : check_scopes admit r.scopes p.scopes s ≡ (ok tt, s1) = ground arith in
        let (same, within) = check_scopes_ok admit r.scopes p.scopes s s1 passed in
        (
          ground arith,
          ground (arith, eq_iff p.proposal proposal),
          ground (arith, eq_iff key p.key),
          within,
          ground arith,
        )
  ]
]

-- agent.pair.approve can only narrow: where it commits to a pair that was not APPROVED yet, the
-- proposal and the key are the pending ones, each scope that it grants lies within a scope of the
-- invitation, the hook admitted it, and the row becomes APPROVED with just this approval.
pub approve_narrows :
    (c : Config) (admit : Scope → Option RpcError) (now : ℕ) (p : ApproveParams) (s s' : Store)
    (r : PairRecord) (out : String × PairState)
    → get p.pair s.pairs ≡ some r
    → same_pair_state r.state approved ≡ false
    → approve c admit now p s ≡ (ok out, s')
    → (r.state ≡ awaiting_operator)
      × (ltb now r.expires_ms ≡ true)
      × (r.proposal ≡ some p.proposal)
      × (r.proposal_key ≡ some p.key)
      × (all (λ x. scope_within x r.scopes && is_none (admit x)) p.scopes ≡ true)
      × (s' ≡ record s {
        pairs =
            put r.pair
              (record r {
                state = approved;
                approval = some (record { proposal = p.proposal; key = p.key; scopes = p.scopes });
              })
              s.pairs;
      })
unfolding approve get_pair
approve_narrows c admit now p s s' r out found fresh h =
    let (s1, live) : (s1 : Store) × (assert_live c now r s ≡ (ok tt, s1)) =
      ((assert_live c now r s).1, ground arith) in
    let a = assert_live_ok c now r s s1 live in
    let committed : commit_approval admit p r s ≡ (ok out, s') = ground (arith, a.0) in
    let (state, proposal, key, scopes, wrote) = commit_approval_ok admit p r s s' out committed in
    (state, a.3, proposal, key, scopes, wrote)
