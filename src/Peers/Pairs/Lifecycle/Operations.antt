-- ===== src/Peers/Pairs/Lifecycle/Operations.antt =====
-- packages/core/src/v2/peers/pairs.ts: what the operations may write.
use latticeag_gateway.Base.{
  ℕ, String, true, ◌≡◌, inl, inr, refl, Option, some, arith, if◌then◌else◌, Option-cases,
  Bool-cases,
}
use latticeag_gateway.Base.Table.{get, put, Keyed, get-Keyed}
use latticeag_gateway.Protocol.Errors.{RpcError}
use latticeag_gateway.Protocol.Values.{Value}
use latticeag_gateway.Protocol.Peers.{is_live, awaiting_operator}
use latticeag_gateway.Exec.{Result, ok, err}
use latticeag_gateway.Peers.Ports.{PairRecord, Store}
use latticeag_gateway.Peers.Registration.{Registration}
use latticeag_gateway.Peers.Registration.Shape.{validate_registration_shape}
use latticeag_gateway.Peers.Pairs.{
  Config, get_pair, transition, check_registration, validate_registration, same_text,
}
use latticeag_gateway.Peers.Pairs.Operations.{retain, propose, proposal_of, with_proposal}
use latticeag_gateway.Peers.Pairs.Binding.{validate_ok}
use latticeag_gateway.Peers.Pairs.Lifecycle.{Lives, pair_key, stays, writes}
use latticeag_gateway.Peers.Pairs.Lifecycle.Checks.{check_registration-Lives}

pub own_row :
    (k : String) (s : Store) (r : PairRecord)
    → Keyed pair_key s.pairs
    → get k s.pairs ≡ some r
    → get r.pair s.pairs ≡ some r
own_row k s r keyed found = cc (found, get-Keyed pair_key k s.pairs r keyed found)

module _ (c : Config) (limiter : String → Option RpcError) (now : ℕ) (v : Value) (s : Store)
    (keyed : Keyed pair_key s.pairs) where
  pub validate-Lives : Lives s (validate_registration c limiter now v s).1
  validate-Lives = go (validate_registration_shape c.b64u_length v) refl
    where
      go :
          (o : Result Registration)
          → validate_registration_shape c.b64u_length v ≡ o
          → Lives s (validate_registration c limiter now v s).1
      go (err e) h =
          let same : (validate_registration c limiter now v s).1 ≡ s =
            unfold validate_registration in ground arith in
          rw same (stays s keyed)
      go (ok reg) h = elim (Option-cases (get reg.pair s.pairs)) [
        | inl gone ↦
            let same : (validate_registration c limiter now v s).1 ≡ s =
              unfold validate_registration get_pair in ground arith in
            rw same (stays s keyed)
        | inr (r, found) ↦
            let same : (validate_registration c limiter now v s).1
                ≡ (check_registration c limiter now r reg s).1 =
              unfold validate_registration get_pair in ground arith in
            rw same (
              check_registration-Lives c now s keyed r (own_row reg.pair s r keyed found) limiter
                reg)
      ]

  retain_writes :
      (r : PairRecord) (reg : Registration)
      → is_live r.state ≡ true
      → (retain c r reg s).1 ≡ record s {
        pairs =
            put r.pair
              (if same_text r.proposal (proposal_of c reg)
                then r
                else record (with_proposal c reg r) { state = awaiting_operator })
              s.pairs;
      }
  unfolding retain transition
  retain_writes r reg live = ground arith

  retain-Lives :
      (r : PairRecord) (reg : Registration)
      → get r.pair s.pairs ≡ some r
      → is_live r.state ≡ true
      → Lives s (retain c r reg s).1
  retain-Lives r reg found live =
      rw (retain_writes r reg live) (elim (Bool-cases (same_text r.proposal (proposal_of c reg))) [
        | inl same ↦ rw same (
            writes s keyed r r found
              (record { binding = refl; attempts = omega arith; settled = inl live }))
        | inr differs ↦ rw differs (
            writes s keyed r _ found
              (record { binding = refl; attempts = omega arith; settled = inl live }))
      ])

  pub propose-Lives : Lives s (propose c limiter now v s).1
  propose-Lives = go (validate_registration c limiter now v s) refl validate-Lives
    where
      go :
          (o : Result (PairRecord × Registration) × Store)
          → validate_registration c limiter now v s ≡ o
          → Lives s o.1
          → Lives s (propose c limiter now v s).1
      go (err e, s') h l =
          let same : (propose c limiter now v s).1 ≡ s' = unfold propose in ground arith in
          rw same l
      go (ok (r, reg), s') h l =
          let (at_s, shape, authentic) = validate_ok c limiter now v s s' r reg h in
          let same : (propose c limiter now v s).1 ≡ (retain c r reg s).1 =
            unfold propose in ground (arith, at_s) in
          rw same (retain-Lives r reg (own_row reg.pair s r keyed authentic.row) authentic.live)
