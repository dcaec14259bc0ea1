-- ===== src/Peers/Pairs/Lifecycle/Checks.antt =====
-- packages/core/src/v2/peers/pairs.ts: what the checks of a registration may write.
use latticeag_gateway.Base.{
  ℕ, ◌+◌, String, Bool, true, false, not, ◌≡◌, ◌⊎◌, inl, inr, refl, Option, none, some, arith, ap,
  ◌=ₛ◌, ◌∙◌, leb, if◌then◌else◌,
}
use latticeag_gateway.Base.Table.{get, put, Keyed}
use latticeag_gateway.Protocol.Errors.{
  at, schema_invalid, ErrorCode, RpcError, forbidden, signature_invalid,
}
use latticeag_gateway.Protocol.Lexical.{is_pair_code}
use latticeag_gateway.Protocol.Peers.{is_live, locked, expired}
use latticeag_gateway.Exec.{throw_if, Result, ok, err, Exec, ◌>>◌, when}
use latticeag_gateway.Peers.Ports.{PairRecord, Store}
use latticeag_gateway.Peers.Registration.{Registration}
use latticeag_gateway.Peers.Pairs.{
  Config, transition, assert_live, check_code, check_challenge, check_key_and_proof, check_profiles,
  check_registration, throw_some, fail_attempt, expire_if_live, same_text, other_key, body_of,
}
use latticeag_gateway.Peers.Pairs.Attempts.{put-put, lock_lem}
use latticeag_gateway.Peers.Pairs.Binding.{
  assert_live_ok, check_code_ok, check_challenge_ok, check_key_and_proof_ok, when_fail_ok,
  limiter_ok,
}
use latticeag_gateway.Peers.Pairs.Lifecycle.{Lives, pair_key, stays, writes}

-- A sequence, where the first call writes nothing when it succeeds.
then-Lives :
    (m k : Exec Store (Unit {0})) (s : Store)
    → ((s' : Store) → m s ≡ (ok tt, s') → s' ≡ s)
    → Lives s (m s).1
    → (m s ≡ (ok tt, s) → Lives s (k s).1)
    → Lives s ((m >> k) s).1
then-Lives m k s same first second = go (m s) refl first
  where
    go :
        (o : Result (Unit {0}) × Store)
        → m s ≡ o
        → Lives s o.1
        → Lives s
            (let after : Result (Unit {0}) × Store = elim o.0 [
              | ok a ↦ k o.1
              | err e ↦ (err e, o.1)
            ] in
              after).1
    go (ok u, s') e l = rw (same s' e) (second (e ∙ ap (λ x. (ok tt, x)) (same s' e)))
    go (err x, s') e l = l

module _ (c : Config) (now : ℕ) (s : Store) (keyed : Keyed pair_key s.pairs) (r : PairRecord)
    (found : get r.pair s.pairs ≡ some r) where
  live_writes :
      ((assert_live c now r s).1 ≡ s)
      ⊎ ((is_live r.state ≡ true)
          × ((assert_live c now r s).1
              ≡ record s { pairs = put r.pair (record r { state = expired }) s.pairs }))
  unfolding assert_live expire_if_live transition
  live_writes = ground arith

  pub assert_live-Lives : Lives s (assert_live c now r s).1
  assert_live-Lives = elim live_writes [
    | inl same ↦ rw same (stays s keyed)
    | inr (live, eq) ↦ rw eq (
        writes s keyed r (record r { state = expired }) found
          (record { binding = refl; attempts = omega arith; settled = inl live }))
  ]

  module _ (live : is_live r.state ≡ true) where
    fail_writes :
        (code : ErrorCode)
        → (fail_attempt r code s).1 ≡ record s {
          pairs =
              put r.pair
                (record r {
                  attempts = r.attempts + 1;
                  state = if leb 5 (r.attempts + 1) then locked else r.state;
                })
                s.pairs;
        }
    unfolding fail_attempt
    fail_writes code =
        let r' : PairRecord = record r { attempts = r.attempts + 1 } in
        ground (
          arith,
          lock_lem r' (record s { pairs = put r.pair r' s.pairs }),
          put-put r.pair (record r' { state = locked }) r' s.pairs,
        )

    pub fail-Lives : (code : ErrorCode) → Lives s (fail_attempt r code s).1
    fail-Lives code = rw (fail_writes code) (
        writes s keyed r _ found
          (record { binding = refl; attempts = omega arith; settled = inl live }))

    when_fail-Lives : (b : Bool) (code : ErrorCode) → Lives s (when b (fail_attempt r code) s).1
    when_fail-Lives true code = fail-Lives code
    when_fail-Lives false code = stays s keyed

    check_code-Lives : (code : String) → Lives s (check_code c r code s).1
    unfolding check_code
    check_code-Lives code =
        let form = throw_if {S = Store} (not (is_pair_code code)) (at schema_invalid "code") in
        let wrong = not (c.sha256 code =ₛ r.code_hash) in
        then-Lives form (when wrong (fail_attempt r forbidden)) s (λ s' e. ground arith)
          (stays s keyed) (λ _. when_fail-Lives wrong forbidden)

    key_and_proof-Lives : (reg : Registration) → Lives s (check_key_and_proof c r reg s).1
    unfolding check_key_and_proof
    key_and_proof-Lives reg =
        let a = not (same_text (c.key_id_of_public reg.key.public) reg.key.id) in
        let b = other_key r.pinned_key reg.key.id in
        let d = not (c.verify_register (body_of c reg) reg.proof reg.key.public) in
        then-Lives (when a (fail_attempt r forbidden))
          (when b (fail_attempt r forbidden) >> when d (fail_attempt r signature_invalid)) s
          (λ s' e. (when_fail_ok a r forbidden s s' e).0) (when_fail-Lives a forbidden)
          (λ _.
            then-Lives (when b (fail_attempt r forbidden))
              (when d (fail_attempt r signature_invalid)) s
              (λ s' e. (when_fail_ok b r forbidden s s' e).0) (when_fail-Lives b forbidden)
              (λ _. when_fail-Lives d signature_invalid))

  challenge_writes : (reg : Registration) → (check_challenge c now reg s).1 ≡ s
  unfolding check_challenge
  challenge_writes reg = ground arith

  profiles_write : (reg : Registration) → (check_profiles c reg s).1 ≡ s
  unfolding check_profiles
  profiles_write reg = ground arith

  limit_writes : (o : Option RpcError) → (throw_some o s).1 ≡ s
  limit_writes none = refl
  limit_writes (some e) = refl

  same-Lives : (s' : Store) → s' ≡ s → Lives s s'
  same-Lives s' e = rw e (stays s keyed)

  pub check_registration-Lives :
      (limiter : String → Option RpcError) (reg : Registration)
      → Lives s (check_registration c limiter now r reg s).1
  unfolding check_registration
  check_registration-Lives limiter reg =
      let code = check_code c r reg.code in
      let challenge = check_challenge c now reg in
      let limit = throw_some (limiter reg.key.id) in
      let proof = check_key_and_proof c r reg in
      let profiles = check_profiles c reg in
      then-Lives (assert_live c now r) (code >> (challenge >> (limit >> (proof >> profiles)))) s
        (λ s' e. (assert_live_ok c now r s s' e).0) assert_live-Lives
        (λ e.
          let live = (assert_live_ok c now r s s e).2 in
          then-Lives code (challenge >> (limit >> (proof >> profiles))) s
            (λ s' d. (check_code_ok c now r s s' reg.code d).0) (check_code-Lives live reg.code)
            (λ _.
              then-Lives challenge (limit >> (proof >> profiles)) s
                (λ s' d. (check_challenge_ok c now reg s s' d).0)
                (same-Lives _ (challenge_writes reg))
                (λ _.
                  then-Lives limit (proof >> profiles) s
                    (λ s' d. (limiter_ok (limiter reg.key.id) s s' d).0)
                    (same-Lives _ (limit_writes (limiter reg.key.id)))
                    (λ _.
                      then-Lives proof profiles s
                        (λ s' d. (check_key_and_proof_ok c now reg s s' r d).0)
                        (key_and_proof-Lives live reg) (λ _. same-Lives _ (profiles_write reg))))))
