-- ===== src/Peers/Pairs/Attempts.antt =====
-- packages/core/src/v2/peers/pairs.ts: the accounting of failed attempts, and the lock.
use latticeag_gateway.Base.{
  false, ℕ, ◌+◌, suc, String, Bool, true, not, ◌&&◌, ◌||◌, ◌≡◌, refl, Option, some, List, [], ◌∷◌,
  ◌=ₛ◌, leb, ltb, if◌then◌else◌, length, all, arith, eq_iff, eq_refl, ap, ◌∙◌,
}
use latticeag_gateway.Base.Table.{Table, get, put, get-put_self}
use latticeag_gateway.Protocol.Errors.{
  ErrorCode, RpcError, forbidden, pairing_locked, state_transition, at,
}
use latticeag_gateway.Protocol.Lexical.{is_pair_code}
use latticeag_gateway.Protocol.Peers.{Scope, locked, is_live}
use latticeag_gateway.Exec.{ok, err}
use latticeag_gateway.Peers.Ports.{PairRecord, Store}
use latticeag_gateway.Peers.Pairs.{
  Config, get_pair, transition, assert_live, fail_attempt, lock, same_pair_state,
}
use latticeag_gateway.Peers.Pairs.Operations.{
  ApproveParams, get_pair_view, noted, check_code_given, approve, cancel,
}

-- The second of two writes to a key is the one that stands.
pub put-put : {V : Type 0} → (k : String) (v w : V) (t : Table V) → put k v (put k w t) ≡ put k v t
unfolding put
put-put k v w [] = ground (arith, eq_refl k)
put-put k v w ((j, u) ∷ t) = ground (arith, eq_refl k, put-put k v w t)

-- A row after one more failed attempt.
abbrev pub failed : PairRecord → PairRecord
failed r = record r {
  attempts = r.attempts + 1;
  state = if leb 5 (r.attempts + 1) then locked else r.state;
}

-- A live row with attempts left, or a locked one with none.
abbrev pub is_counting : PairRecord → Bool
is_counting r =
    (is_live r.state && ltb r.attempts 5) || (same_pair_state r.state locked && leb 5 r.attempts)

abbrev pub failure : PairRecord → ErrorCode → RpcError
failure r code = if leb 5 (r.attempts + 1) then at pairing_locked "code" else at code "code"

pub lock_lem :
    (r : PairRecord) (s : Store)
    → is_live r.state || same_pair_state r.state locked ≡ true
    → lock r s ≡ (ok tt, record s { pairs = put r.pair (record r { state = locked }) s.pairs })
unfolding lock transition
lock_lem r s h = ground arith

pub fail_attempt_lem :
    (r : PairRecord) (code : ErrorCode) (s : Store)
    → is_counting r ≡ true
    → fail_attempt r code s
      ≡ (err (failure r code), record s { pairs = put r.pair (failed r) s.pairs })
unfolding fail_attempt
fail_attempt_lem r code s h =
    let r' : PairRecord = record r { attempts = r.attempts + 1 } in
    ground (
      arith,
      lock_lem r' (record s { pairs = put r.pair r' s.pairs }),
      put-put r.pair (record r' { state = locked }) r' s.pairs,
    )

abbrev pub is_wrong : Config → PairRecord → String → Bool
is_wrong c r code = is_pair_code code && not (c.sha256 code =ₛ r.code_hash)

-- agent.pair.get with a code that does not match.
pub get_wrong :
    (c : Config) (now : ℕ) (pair code : String) (s : Store) (r : PairRecord)
    → get pair s.pairs ≡ some r
    → is_counting r ≡ true
    → r.epoch ≡ c.epoch
    → ltb now r.expires_ms ≡ true
    → is_wrong c r code ≡ true
    → get_pair_view c now pair (some code) s
      ≡ (err (failure r forbidden), record s { pairs = put r.pair (failed r) s.pairs })
unfolding get_pair_view noted check_code_given get_pair
get_wrong c now pair code s r found counting epoch fresh wrong =
    ground (arith, fail_attempt_lem r forbidden s counting, eq_iff r.epoch c.epoch)

-- The calls of agent.pair.get with these codes at these times.
pub guesses : Config → String → List (ℕ × String) → Store → Store
guesses c pair [] s = s
guesses c pair ((now, code) ∷ gs) s = guesses c pair gs (get_pair_view c now pair (some code) s).1

abbrev pub misses : Config → PairRecord → ℕ × String → Bool
misses c r (now, code) = ltb now r.expires_ms && is_wrong c r code

abbrev pub after_failures : ℕ → PairRecord → PairRecord
after_failures n r = record r {
  attempts = r.attempts + n;
  state = if leb 5 (r.attempts + n) then locked else r.state;
}

after_failures-failed :
    (n : ℕ) (r : PairRecord)
    → is_counting r ≡ true
    → after_failures n (failed r) ≡ after_failures (suc n) r
after_failures-failed n r h = ground arith

guesses-after :
    (c : Config) (pair : String) (gs : List (ℕ × String)) (s : Store) (r : PairRecord)
    → get pair s.pairs ≡ some r
    → r.pair ≡ pair
    → is_counting r ≡ true
    → r.epoch ≡ c.epoch
    → all (misses c r) gs ≡ true
    → get pair (guesses c pair gs s).pairs ≡ some (after_failures (length gs) r)
unfolding guesses
guesses-after c pair [] s r found own counting epoch h = ground arith
guesses-after c pair ((now, code) ∷ gs) s r found own counting epoch h =
    let one = get_wrong c now pair code s r found counting epoch (ground arith) (ground arith) in
    let written : get pair (put r.pair (failed r) s.pairs) ≡ some (failed r) =
      cc (get-put_self r.pair (failed r) s.pairs, own) in
    ap (λ o. get pair (guesses c pair gs o.1).pairs) one
    ∙ guesses-after c pair gs _ (failed r) written own (ground arith) epoch (ground arith)
    ∙ ap some (after_failures-failed (length gs) r counting)

-- agent.pair.get on a pair of the current epoch that is live with attempts left, or LOCKED with none left:
-- after any number of calls of it with well-formed wrong codes before the pair's expiry, the row has counted
-- every one of them, it is LOCKED as soon as there were five and keeps its state before that, and the answer
-- to one more such call is FORBIDDEN up to the fourth failure and PAIRING_LOCKED from the fifth on.
pub fifth_failure_locks :
    (c : Config) (pair : String) (gs : List (ℕ × String)) (s : Store) (r : PairRecord)
    → get pair s.pairs ≡ some r
    → r.pair ≡ pair
    → is_counting r ≡ true
    → r.epoch ≡ c.epoch
    → all (misses c r) gs ≡ true
    → (now : ℕ) (code : String) → misses c r (now, code) ≡ true
    → let s' = guesses c pair gs s in
      (get pair s'.pairs ≡ some (after_failures (length gs) r))
      × ((get_pair_view c now pair (some code) s').0
          ≡ err (
              if leb 5 (r.attempts + length gs + 1)
              then at pairing_locked "code"
              else at forbidden "code"))
fifth_failure_locks c pair gs s r found own counting epoch h now code miss =
    let row = guesses-after c pair gs s r found own counting epoch h in
    (
      row,
      rw
          (get_wrong c now pair code (guesses c pair gs s) (after_failures (length gs) r) row
            (ground arith) epoch (ground arith) (ground arith))
          refl,
    )

-- A LOCKED pair of the current epoch stays as it is under approve and cancel, and both answer
-- PAIRING_LOCKED, whatever the parameters and the time.
pub locked_refuses :
    (c : Config) (s : Store) (r : PairRecord) (pair : String)
    → get pair s.pairs ≡ some r
    → r.state ≡ locked
    → r.epoch ≡ c.epoch
    → (now : ℕ) (admit : Scope → Option RpcError) (p : ApproveParams) → p.pair ≡ pair
    → (cancel c now pair s ≡ (err (at pairing_locked "pair"), s))
      × (approve c admit now p s ≡ (err (at pairing_locked "pair"), s))
unfolding cancel approve assert_live get_pair
locked_refuses c s r pair found state epoch now admit p same =
    (ground (arith, eq_iff r.epoch c.epoch), ground (arith, eq_iff r.epoch c.epoch))

pub dead_lock :
    (r : PairRecord) (s : Store)
    → is_live r.state ≡ false
    → same_pair_state r.state locked ≡ false
    → lock r s ≡ (err (at state_transition "pair"), s)
unfolding lock transition
dead_lock r s dead other = ground arith

-- A wrong code for agent.pair.get on a row that is EXPIRED, CANCELLED or CONSUMED raises its count and
-- leaves its state; the answer is FORBIDDEN up to the fourth failure and STATE_TRANSITION, not
-- PAIRING_LOCKED, from the fifth on.
pub dead_pair_counts :
    (c : Config) (now : ℕ) (pair code : String) (s : Store) (r : PairRecord)
    → get pair s.pairs ≡ some r
    → is_live r.state ≡ false
    → same_pair_state r.state locked ≡ false
    → is_wrong c r code ≡ true
    → get_pair_view c now pair (some code) s ≡ (
      err (if leb 5 (r.attempts + 1) then at state_transition "pair" else at forbidden "code"),
      record s { pairs = put r.pair (record r { attempts = r.attempts + 1 }) s.pairs },
    )
unfolding get_pair_view noted check_code_given get_pair fail_attempt
dead_pair_counts c now pair code s r found dead other wrong =
    let r' : PairRecord = record r { attempts = r.attempts + 1 } in
    ground (arith, dead_lock r' (record s { pairs = put r.pair r' s.pairs }))
