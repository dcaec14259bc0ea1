-- ===== src/Peers/Pairs/Once.antt =====
-- packages/core/src/v2/peers/pairs.ts: an invitation and a challenge are used once.
use latticeag_gateway.Base.{ℕ, String, true, false, ◌≡◌, refl, Option, some, List, arith, eq_iff}
use latticeag_gateway.Base.Table.{get, put, Keyed, get-Keyed, get-put_self}
use latticeag_gateway.Protocol.Errors.{RpcError, state_transition, at}
use latticeag_gateway.Protocol.Values.{Value}
use latticeag_gateway.Protocol.Peers.{Scope, approved, consumed}
use latticeag_gateway.Exec.{ok, err}
use latticeag_gateway.Peers.Ports.{PairRecord, ChallengeRecord, Store}
use latticeag_gateway.Peers.Registration.{Registration}
use latticeag_gateway.Peers.Registration.Shape.{validate_registration_shape}
use latticeag_gateway.Peers.Pairs.{
  Config, get_pair, transition, assert_live, check_registration, validate_registration,
}
use latticeag_gateway.Peers.Pairs.Operations.{
  assert_registerable, propose, consume_challenge, consume,
}
use latticeag_gateway.Peers.Pairs.Binding.{Answers, registers_only_approved}

pub consume_lem :
    (r : PairRecord) (reg : Registration) (ch : ChallengeRecord) (s : Store)
    → r.state ≡ approved
    → get reg.challenge s.challenges ≡ some ch
    → ch.consumed ≡ false
    → consume r reg s ≡ (
      ok tt,
      record s {
        challenges = put ch.challenge (record ch { consumed = true }) s.challenges;
        pairs = put r.pair (record r { state = consumed }) s.pairs;
      },
    )
unfolding consume consume_challenge transition
consume_lem r reg ch s state found live = ground arith

consumed_refused :
    (c : Config) (limiter : String → Option RpcError) (now : ℕ) (v : Value) (s : Store)
    (r : PairRecord) (reg : Registration)
    → validate_registration_shape c.b64u_length v ≡ ok reg
    → get reg.pair s.pairs ≡ some r
    → r.epoch ≡ c.epoch
    → r.state ≡ consumed
    → validate_registration c limiter now v s ≡ (err (at state_transition "pair"), s)
unfolding validate_registration get_pair check_registration assert_live
consumed_refused c limiter now v s r reg shape found epoch state =
    ground (arith, eq_iff r.epoch c.epoch)

unanswered :
    (c : Config) (now : ℕ) (reg : Registration) (s : Store) (ch : ChallengeRecord)
    → get reg.challenge s.challenges ≡ some ch
    → ch.consumed ≡ true
    → Answers c now reg s
    → ⊥
unanswered c now reg s ch found spent b = ground (arith, b.issued, b.unconsumed)

-- In a store whose pairs and challenges stand under their own ids: once a registration that passed
-- is committed by `consume`, the invitation and the challenge are
-- spent: the pair is CONSUMED, the same registration is refused with STATE_TRANSITION by register and
-- by propose at any time and leaves the store as it is, and no registration at all answers that
-- challenge any more.
pub registers_once :
    (c : Config) (limiter : String → Option RpcError) (now : ℕ) (v : Value) (s : Store)
    (r : PairRecord) (reg : Registration) (scopes : List Scope)
    → Keyed (λ x. x.pair) s.pairs
    → Keyed (λ x. x.challenge) s.challenges
    → assert_registerable c limiter now v s ≡ (ok (r, reg, scopes), s)
    → (limiter' : String → Option RpcError) (now' : ℕ) (reg' : Registration)
    → reg'.challenge ≡ reg.challenge
    → let s' = (consume r reg s).1 in
      (get reg.pair s'.pairs ≡ some (record r { state = consumed }))
      × (assert_registerable c limiter' now' v s' ≡ (err (at state_transition "pair"), s'))
      × (propose c limiter' now' v s' ≡ (err (at state_transition "pair"), s'))
      × ¬ Answers c now' reg' s'
unfolding assert_registerable propose
registers_once c limiter now v s r reg scopes keyed keyed_ch h limiter' now' reg' same =
    let (u, shape, authentic, state, approval) =
      registers_only_approved c limiter now v s s r reg scopes h in
    let a = authentic.answers in
    let own = get-Keyed (λ x. x.pair) reg.pair s.pairs r keyed authentic.row in
    let own_ch =
      get-Keyed (λ x. x.challenge) reg.challenge s.challenges a.challenge keyed_ch a.issued in
    let spent : PairRecord = record r { state = consumed } in
    let s' : Store = record s {
      challenges = put a.challenge.challenge (record a.challenge { consumed = true }) s.challenges;
      pairs = put r.pair spent s.pairs;
    } in
    let row : get reg.pair s'.pairs ≡ some spent = cc (get-put_self r.pair spent s.pairs, own) in
    let spent_ch : get reg'.challenge s'.challenges
        ≡ some (record a.challenge { consumed = true }) =
      cc (
        get-put_self a.challenge.challenge (record a.challenge { consumed = true }) s.challenges,
        own_ch,
        same,
      ) in
    let refused = consumed_refused c limiter' now' v s' spent reg shape row authentic.epoch refl in
    rw (consume_lem r reg a.challenge s state a.issued a.unconsumed) (
      row,
      ground (arith, refused),
      ground (arith, refused),
      λ b. unanswered c now' reg' s' _ spent_ch refl b,
    )
