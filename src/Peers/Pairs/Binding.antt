-- ===== src/Peers/Pairs/Binding.antt =====
-- packages/core/src/v2/peers/pairs.ts: what a registration that passes has been checked against.
use latticeag_gateway.Base.{
  ℕ, String, Bool, true, false, not, ◌≡◌, Option, none, some, List, ltb, all, includes, arith,
  eq_iff, subst, ◌∙◌, inl, inr, Option-cases,
}
use latticeag_gateway.Base.Table.{get}
use latticeag_gateway.Protocol.Errors.{ErrorCode, RpcError, forbidden, signature_invalid}
use latticeag_gateway.Protocol.Values.{Value}
use latticeag_gateway.Protocol.Lexical.{is_pair_code}
use latticeag_gateway.Protocol.Peers.{Scope, is_live, approved}
use latticeag_gateway.Exec.{ok, when, ◌>>◌}
use latticeag_gateway.Exec.Bind.{then_ok}
use latticeag_gateway.Peers.Ports.{PairRecord, ChallengeRecord, Store}
use latticeag_gateway.Peers.Registration.{Registration}
use latticeag_gateway.Peers.Registration.Shape.{validate_registration_shape}
use latticeag_gateway.Peers.Pairs.{
  Config, get_pair, assert_live, check_code, check_challenge, check_key_and_proof, check_profiles,
  throw_some, other_key, same_text, body_of, fail_attempt, validate_registration, binds,
  check_registration,
}
use latticeag_gateway.Peers.Pairs.Operations.{check_approved, assert_registerable, proposal_of}

fail_attempt_err :
    (r : PairRecord) (code : ErrorCode) (s s' : Store) → fail_attempt r code s ≡ (ok tt, s') → ⊥
unfolding fail_attempt
fail_attempt_err r code s s' h = ground arith

pub when_fail_ok :
    (b : Bool) (r : PairRecord) (code : ErrorCode) (s s' : Store)
    → when b (fail_attempt r code) s ≡ (ok tt, s')
    → (s' ≡ s) × (b ≡ false)
when_fail_ok true r code s s' h = absurd (fail_attempt_err r code s s' h)
when_fail_ok false r code s s' h = ground arith

three_pass :
    (r : PairRecord) (s s' : Store) (a b d : Bool)
    → (when (not a) (fail_attempt r forbidden)
          >> (when b (fail_attempt r forbidden) >> when (not d) (fail_attempt r signature_invalid)))
        s
      ≡ (ok tt, s')
    → (s' ≡ s) × (a ≡ true) × (b ≡ false) × (d ≡ true)
three_pass r s s' a b d h =
    let first = when (not a) (fail_attempt r forbidden) in
    let second = when b (fail_attempt r forbidden) in
    let third = when (not d) (fail_attempt r signature_invalid) in
    let (s1, ok1, rest) = then_ok first (second >> third) s s' h in
    let (s2, ok2, ok3) = then_ok second third s1 s' rest in
    let x = when_fail_ok (not a) r forbidden s s1 ok1 in
    let y = when_fail_ok b r forbidden s1 s2 ok2 in
    let z = when_fail_ok (not d) r signature_invalid s2 s' ok3 in
    (z.0 ∙ y.0 ∙ x.0, ground arith, y.1, ground arith)

module _ (c : Config) (now : ℕ) (r : PairRecord) (s s' : Store) where
  pub assert_live_ok :
      assert_live c now r s ≡ (ok tt, s')
      → (s' ≡ s) × (r.epoch ≡ c.epoch) × (is_live r.state ≡ true) × (ltb now r.expires_ms ≡ true)
  unfolding assert_live
  assert_live_ok h = ground (arith, eq_iff r.epoch c.epoch)

  pub check_code_ok :
      (code : String)
      → check_code c r code s ≡ (ok tt, s')
      → (s' ≡ s) × (is_pair_code code ≡ true) × (c.sha256 code ≡ r.code_hash)
  unfolding check_code
  check_code_ok code h =
      ground (arith, eq_iff (c.sha256 code) r.code_hash, fail_attempt_err r forbidden s s')

-- The challenge that a registration answers: issued in this epoch for its key and nonces, unconsumed
-- and not past its expiry.
pub record Answers (c : Config) (now : ℕ) (reg : Registration) (s : Store) : Type 0 where
  pub challenge : ChallengeRecord
  pub issued : get reg.challenge s.challenges ≡ some challenge
  pub epoch : challenge.epoch ≡ c.epoch
  pub reg_epoch : reg.epoch ≡ c.epoch
  pub unconsumed : challenge.consumed ≡ false
  pub fresh : ltb now challenge.expires_ms ≡ true
  pub nonces_and_key : binds challenge reg ≡ true

module _ (c : Config) (now : ℕ) (reg : Registration) (s s' : Store) where
  pub check_challenge_ok :
      check_challenge c now reg s ≡ (ok tt, s') → (s' ≡ s) × Answers c now reg s
  unfolding check_challenge
  check_challenge_ok h = elim (Option-cases (get reg.challenge s.challenges)) [
    | inl gone ↦ absurd (ground arith)
    | inr (ch, found) ↦ (
      ground arith,
      record {
        challenge = ch;
        issued = found;
        epoch = ground (arith, eq_iff ch.epoch c.epoch);
        reg_epoch = ground (arith, eq_iff reg.epoch c.epoch);
        unconsumed = ground arith;
        fresh = ground arith;
        nonces_and_key = ground arith;
      },
    )
  ]

  pub check_key_and_proof_ok :
      (r : PairRecord)
      → check_key_and_proof c r reg s ≡ (ok tt, s')
      → (s' ≡ s)
        × (same_text (c.key_id_of_public reg.key.public) reg.key.id ≡ true)
        × (other_key r.pinned_key reg.key.id ≡ false)
        × (c.verify_register (body_of c reg) reg.proof reg.key.public ≡ true)
  unfolding check_key_and_proof
  check_key_and_proof_ok r h = three_pass r s s' _ _ _ h

  pub check_profiles_ok :
      check_profiles c reg s ≡ (ok tt, s')
      → (s' ≡ s)
        × (reg.interfaces ≡ c.supported_interfaces)
        × (all (includes c.supported_profiles) reg.profiles ≡ true)
  unfolding check_profiles
  check_profiles_ok h = ground (arith, eq_iff reg.interfaces c.supported_interfaces)

pub limiter_ok :
    (o : Option RpcError) (s s' : Store) → throw_some o s ≡ (ok tt, s') → (s' ≡ s) × (o ≡ none)
limiter_ok none s s' h = ground arith
limiter_ok (some e) s s' h = absurd (ground arith)

-- All that a registration that passes validation has been checked against: its pair is live, of this
-- epoch and not past its expiry, its code is the invitation's, its challenge is the one it answers,
-- the limiter let its key through, the key's fingerprint is right and is the invited one where one is
-- pinned, the proof verifies, and the interfaces and profiles are supported.
pub record IsAuthentic (c : Config) (limiter : String → Option RpcError) (now : ℕ) (r : PairRecord)
    (reg : Registration) (s : Store) : Type 0 where
  pub row : get reg.pair s.pairs ≡ some r
  pub live : is_live r.state ≡ true
  pub epoch : r.epoch ≡ c.epoch
  pub fresh : ltb now r.expires_ms ≡ true
  pub code : c.sha256 reg.code ≡ r.code_hash
  pub answers : Answers c now reg s
  pub limited : limiter reg.key.id ≡ none
  pub fingerprint : same_text (c.key_id_of_public reg.key.public) reg.key.id ≡ true
  pub pinned : other_key r.pinned_key reg.key.id ≡ false
  pub proof : c.verify_register (body_of c reg) reg.proof reg.key.public ≡ true
  pub interfaces : reg.interfaces ≡ c.supported_interfaces
  pub profiles : all (includes c.supported_profiles) reg.profiles ≡ true

check_registration_ok :
    (c : Config) (limiter : String → Option RpcError) (now : ℕ) (s s' : Store) (r : PairRecord)
    (reg : Registration)
    → get reg.pair s.pairs ≡ some r
    → check_registration c limiter now r reg s ≡ (ok tt, s')
    → (s' ≡ s) × IsAuthentic c limiter now r reg s
unfolding check_registration
check_registration_ok c limiter now s s' r reg found h =
    let live = assert_live c now r in
    let code = check_code c r reg.code in
    let challenge = check_challenge c now reg in
    let limit = throw_some (limiter reg.key.id) in
    let proof = check_key_and_proof c r reg in
    let profiles = check_profiles c reg in
    let (s1, h1, k1) =
      then_ok live (code >> (challenge >> (limit >> (proof >> profiles)))) s s' h in
    let (s2, h2, k2) = then_ok code (challenge >> (limit >> (proof >> profiles))) s1 s' k1 in
    let (s3, h3, k3) = then_ok challenge (limit >> (proof >> profiles)) s2 s' k2 in
    let (s4, h4, k4) = then_ok limit (proof >> profiles) s3 s' k3 in
    let (s5, h5, h6) = then_ok proof profiles s4 s' k4 in
    let a = assert_live_ok c now r s s1 h1 in
    let b = check_code_ok c now r s1 s2 reg.code h2 in
    let d = check_challenge_ok c now reg s2 s3 h3 in
    let l = limiter_ok (limiter reg.key.id) s3 s4 h4 in
    let e = check_key_and_proof_ok c now reg s4 s5 r h5 in
    let f = check_profiles_ok c now reg s5 s' h6 in
    let same : s2 ≡ s = b.0 ∙ a.0 in
    (
      f.0 ∙ e.0 ∙ l.0 ∙ d.0 ∙ same,
      record {
        row = found;
        live = a.2;
        epoch = a.1;
        fresh = a.3;
        code = b.2;
        answers = subst (Answers c now reg) same d.1;
        limited = l.1;
        fingerprint = e.1;
        pinned = e.2;
        proof = e.3;
        interfaces = f.1;
        profiles = f.2;
      },
    )

check_approved_ok :
    (c : Config) (r : PairRecord) (reg : Registration) (scopes : List Scope)
    → check_approved c r reg ≡ ok scopes
    → (r.state ≡ approved)
      × (r.approval
          ≡ some (record { proposal = proposal_of c reg; key = reg.key.id; scopes = scopes }))
unfolding check_approved
check_approved_ok c r reg scopes h = elim (Option-cases r.approval) [
  | inl gone ↦ absurd (ground arith)
  | inr (a, has) ↦
      (ground arith, ground (arith, eq_iff reg.key.id a.key, eq_iff (proposal_of c reg) a.proposal))
]

pub validate_ok :
    (c : Config) (limiter : String → Option RpcError) (now : ℕ) (v : Value) (s s' : Store)
    (r : PairRecord) (reg : Registration)
    → validate_registration c limiter now v s ≡ (ok (r, reg), s')
    → (s' ≡ s)
      × (validate_registration_shape c.b64u_length v ≡ ok reg)
      × IsAuthentic c limiter now r reg s
unfolding validate_registration get_pair
validate_ok c limiter now v s s' r reg h =
    let found : get reg.pair s.pairs ≡ some r = ground arith in
    let passed : check_registration c limiter now r reg s ≡ (ok tt, s') = ground arith in
    let (same, authentic) = check_registration_ok c limiter now s s' r reg found passed in
    (same, ground arith, authentic)

-- agent.register goes through only for a registration that is authentic against its pair (live,
-- current, with the right code, an unconsumed fresh challenge for its key and nonces, the right key
-- and a proof that verifies) and that the operator approved: the row is APPROVED, and the approval
-- holds this very key and this very proposal. The scopes it gets are those of the approval, and
-- nothing is written.
pub registers_only_approved :
    (c : Config) (limiter : String → Option RpcError) (now : ℕ) (v : Value) (s s' : Store)
    (r : PairRecord) (reg : Registration) (scopes : List Scope)
    → assert_registerable c limiter now v s ≡ (ok (r, reg, scopes), s')
    → (s' ≡ s)
      × (validate_registration_shape c.b64u_length v ≡ ok reg)
      × IsAuthentic c limiter now r reg s
      × (r.state ≡ approved)
      × (r.approval
          ≡ some (record { proposal = proposal_of c reg; key = reg.key.id; scopes = scopes }))
unfolding assert_registerable
registers_only_approved c limiter now v s s' r reg scopes h =
    let checked : check_approved c r reg ≡ ok scopes = ground arith in
    let valid : validate_registration c limiter now v s ≡ (ok (r, reg), s') = ground arith in
    let (same, shape, authentic) = validate_ok c limiter now v s s' r reg valid in
    let (state, approval) = check_approved_ok c r reg scopes checked in
    (same, shape, authentic, state, approval)
