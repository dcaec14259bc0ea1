-- ===== src/Peers/Pairs/Lifecycle.antt =====
-- packages/core/src/v2/peers/pairs.ts: what a call may do to the row of a pair.
pub mod Checks
pub mod Operations
pub mod Decisions
use latticeag_gateway.Base.{
  ℕ, ◌+◌, ◌≤◌, String, Bool, true, false, not, ◌≡◌, ◌⊎◌, inl, inr, refl, Option, none, some, arith,
  eq_iff, Bool-cases, Option-cases,
}
use latticeag_gateway.Base.Table.{Table, get, put, Keyed}
use latticeag_gateway.Base.Table.Later.{TableLater, EntryLater, same_table, then_table, put_table}
use latticeag_gateway.Protocol.Errors.{ErrorCode}
use latticeag_gateway.Protocol.Peers.{is_live, locked, expired}
use latticeag_gateway.Exec.{Result, ok, err, Exec, ◌>>◌, when}
use latticeag_gateway.Peers.Ports.{PairRecord, Store}
use latticeag_gateway.Peers.Pairs.{
  Config, transition, assert_live, check_code, check_challenge, check_key_and_proof, check_profiles,
  check_registration, throw_some, fail_attempt, lock, same_pair_state, expire_if_live,
}

-- A later version of a row: the invitation's own fields stay, the count of failed attempts never
-- falls, and on a row that is no longer live it is all that moves.
pub record PairLater (r r' : PairRecord) : Type 0 where
  pub binding : r' ≡ record r {
    state = r'.state;
    attempts = r'.attempts;
    proposal = r'.proposal;
    proposal_key = r'.proposal_key;
    proposal_key_material = r'.proposal_key_material;
    proposal_profiles = r'.proposal_profiles;
    proposal_interfaces = r'.proposal_interfaces;
    proposal_capabilities = r'.proposal_capabilities;
    approval = r'.approval;
  }
  pub attempts : r.attempts ≤ r'.attempts
  pub settled : (is_live r.state ≡ true) ⊎ (r' ≡ record r { attempts = r'.attempts })

pub PairLater-refl : (r : PairRecord) → PairLater r r
PairLater-refl r = record { binding = refl; attempts = omega arith; settled = inr refl }

pub PairLater-trans : (a b c : PairRecord) → PairLater a b → PairLater b c → PairLater a c
PairLater-trans a b c h k = record {
  binding = ground (arith, h.binding, k.binding);
  attempts = omega (arith, h.attempts, k.attempts);
  settled = elim h.settled [
    | inl live ↦ inl live
    | inr same ↦ elim k.settled [
      | inl live ↦ inl (ground (arith, same))
      | inr same' ↦ inr (ground (arith, same, same'))
    ]
  ];
}

abbrev pub pair_key : PairRecord → String
pair_key r = r.pair

-- Every row lives on, and stands under its own key.
abbrev pub Lives : Store → Store → Type 0
Lives s s' = TableLater pair_key PairLater s.pairs s'.pairs

module _ (s : Store) (keyed : Keyed pair_key s.pairs) where
  pub stays : Lives s s
  stays = same_table pair_key PairLater PairLater-refl PairLater-trans s.pairs keyed

  pub writes :
      (r r' : PairRecord)
      → get r.pair s.pairs ≡ some r
      → PairLater r r'
      → Lives s (record s { pairs = put r.pair r' s.pairs })
  writes r r' found h =
      put_table pair_key PairLater PairLater-refl PairLater-trans s.pairs r.pair r' keyed
        (ground (arith, h.binding)) (rw found h)
