-- ===== src/Peers/Tests/Pairs.antt =====
-- One invitation: wrong codes, its lock, an approval and a registration.
use latticeag_gateway.Base.{
  suc, ◌≤◌, ◌⊎◌, ℕ, String, true, false, ◌&&◌, ◌≡◌, refl, none, some, List, [], ◌∷◌, ◌=ₛ◌, ltb,
  if◌then◌else◌, all,
}
use latticeag_gateway.Base.Table.{get, put}
use latticeag_gateway.Protocol.Errors.{state_transition, busy, pairing_locked, at}
use latticeag_gateway.Protocol.Values.{Value, str, arr, obj, nil, end, field}
use latticeag_gateway.Protocol.Lexical.{is_pair_code, is_id, is_hash64, is_count}
use latticeag_gateway.Protocol.Peers.{
  expired, consumed, Scope, events_emit, agent, created, awaiting_operator, approved, locked,
}
use latticeag_gateway.Exec.{ok, err}
use latticeag_gateway.Peers.Ports.{PairRecord, ChallengeRecord, Store}
use latticeag_gateway.Peers.Registration.{
  Registration, string_set, unique_strings, check_capabilities,
}
use latticeag_gateway.Peers.Registration.Shape.{
  validate_registration_shape, check_key, missing_key, stray_key,
}
use latticeag_gateway.Peers.Pairs.{
  fail_attempt, Config, get_pair, transition, assert_live, check_code, check_challenge,
  check_key_and_proof, check_profiles, check_registration, validate_registration, scope_within,
}
use latticeag_gateway.Peers.Pairs.Operations.{
  noted, check_code_given, Fresh, CreateParams, create_invitation, invited, pending_count, propose,
  consume, ApproveParams, approve, commit_approval, check_scopes, check_approved,
  assert_registerable, get_pair_view, proposal_of,
}
use latticeag_gateway.Peers.Pairs.Attempts.{guesses, fifth_failure_locks}
use latticeag_gateway.Base.Table.Later.{EntryLater}
use latticeag_gateway.Peers.Pairs.Lifecycle.{PairLater}
use latticeag_gateway.Peers.Pairs.Calls.{
  Call, looks, creates, registers, cancels, step, run, pairs_settle,
}
use latticeag_gateway.Peers.Pairs.Once.{registers_once}
use latticeag_gateway.Peers.Pairs.Pending.{invitations_bounded}
use latticeag_gateway.Peers.Pairs.Binding.{Answers, IsAuthentic, registers_only_approved}
use latticeag_gateway.Peers.Pairs.Commit.{is_none, approve_narrows}

abbrev hash : String
hash = "00000000000000000000000000000000000000000000000000000000000000ab"

abbrev good_code : String
good_code = "0123456789"

abbrev bad_code : String
bad_code = "ABCDEFGH00"

abbrev config : Config
config = record {
  gateway = "gw";
  workspace = "ws";
  epoch = "3";
  supported_profiles = "proof-bundle/1" ∷ [];
  supported_interfaces = "interfaces/1";
  sha256 = λ s. s;
  b64u_length = λ s. some 32;
  key_id_of_public = λ s. if s =ₛ "pub" then some hash else none;
  verify_register = λ body proof key. proof =ₛ "sig";
  proposal_hash = λ key profiles interfaces capabilities. key.id;
}

abbrev emit_all : Scope
emit_all = record { permission = events_emit; topics = "t" ∷ "u" ∷ []; runs = []; products = [] }

abbrev emit_one : Scope
emit_one = record { permission = events_emit; topics = "t" ∷ []; runs = []; products = [] }

abbrev invitation : PairRecord
invitation = record {
  pair = "pair1";
  code_hash = good_code;
  role = agent;
  scopes = emit_all ∷ [];
  pinned_key = none;
  state = created;
  epoch = "3";
  attempts = 0;
  proposal = none;
  proposal_key = none;
  proposal_key_material = none;
  proposal_profiles = none;
  proposal_interfaces = none;
  proposal_capabilities = none;
  approval = none;
  created_ms = 0;
  expires_ms = 300000;
}

abbrev challenge1 : ChallengeRecord
challenge1 = record {
  challenge = "ch1";
  key_id = hash;
  key_public = "pub";
  client_nonce = "cn";
  server_nonce = "sn";
  audience = "gw";
  epoch = "3";
  created_ms = 1;
  expires_ms = 60000;
  consumed = false;
}

abbrev with_pair : PairRecord → Store
with_pair r = record {
  pairs = ("pair1", r) ∷ [];
  challenges = ("ch1", challenge1) ∷ [];
  peers = [];
  sources = [];
  grants = [];
  renew_replays = [];
  sessions = [];
  deliveries = [];
}

abbrev four : List (ℕ × String)
four = (1, bad_code) ∷ (2, bad_code) ∷ (3, bad_code) ∷ (4, bad_code) ∷ []

fifth_failure_locks_example :
    let s' = guesses config "pair1" four (with_pair invitation) in
    (get "pair1" s'.pairs ≡ some (record invitation { attempts = 4 }))
    × ((get_pair_view config 5 "pair1" (some bad_code) s').0 ≡ err (at pairing_locked "code"))
unfolding get is_pair_code
fifth_failure_locks_example =
    fifth_failure_locks config "pair1" four (with_pair invitation) invitation refl refl refl refl
      refl 5 bad_code refl

abbrev pending : PairRecord
pending = record invitation {
  state = awaiting_operator;
  proposal = some hash;
  proposal_key = some hash;
}

abbrev approval : ApproveParams
approval = record { pair = "pair1"; proposal = hash; key = hash; scopes = emit_one ∷ [] }

abbrev agreed : PairRecord
agreed = record pending {
  state = approved;
  approval = some (record { proposal = hash; key = hash; scopes = emit_one ∷ [] });
}

abbrev locked_row : PairRecord
locked_row = record invitation { state = locked; attempts = 5 }

approve_narrows_example :
    (pending.state ≡ awaiting_operator)
    × (ltb 9 300000 ≡ true)
    × (pending.proposal ≡ some hash)
    × (pending.proposal_key ≡ some hash)
    × (all (λ x. scope_within x (emit_all ∷ []) && is_none none) (emit_one ∷ []) ≡ true)
    × (with_pair agreed
        ≡ record (with_pair pending) { pairs = put "pair1" agreed (with_pair pending).pairs })
unfolding get put approve get_pair assert_live commit_approval check_scopes scope_within transition
approve_narrows_example =
    approve_narrows config (λ x. none) 9 approval (with_pair pending) (with_pair agreed) pending
      ("pair1", approved) refl refl refl

abbrev form : Value
form = obj (
    field "pair" (str "pair1") (
      field "code" (str good_code) (
        field "key" (obj (field "id" (str hash) (field "public" (str "pub") end))) (
          field "challenge" (str "ch1") (
            field "client_nonce" (str "cn") (
              field "server_nonce" (str "sn") (
                field "epoch" (str "3") (
                  field "profiles" (arr nil) (
                    field "interfaces" (str "interfaces/1")
                      (field "capabilities" (arr nil) (field "proof" (str "sig") end)))))))))))

abbrev registration : Registration
registration = record {
  pair = "pair1";
  code = good_code;
  key = record { id = hash; public = "pub" };
  challenge = "ch1";
  client_nonce = "cn";
  server_nonce = "sn";
  epoch = "3";
  profiles = [];
  interfaces = "interfaces/1";
  capabilities = [];
  proof = "sig";
}

registers_only_approved_example :
    (with_pair agreed ≡ with_pair agreed)
    × (validate_registration_shape config.b64u_length form ≡ ok registration)
    × IsAuthentic config (λ k. none) 9 agreed registration (with_pair agreed)
    × (agreed.state ≡ approved)
    × (agreed.approval
        ≡ some (record {
          proposal = proposal_of config registration;
          key = registration.key.id;
          scopes = emit_one ∷ [];
        }))
unfolding get get_pair assert_live check_code check_challenge check_key_and_proof check_profiles
    check_registration validate_registration check_approved assert_registerable
    validate_registration_shape check_key missing_key stray_key string_set unique_strings
    check_capabilities is_pair_code is_id is_hash64 is_count
registers_only_approved_example =
    registers_only_approved config (λ k. none) 9 form (with_pair agreed) (with_pair agreed) agreed
      registration (emit_one ∷ []) refl

-- A second one with the same form, after the first was committed.
registers_once_example :
    let s' = (consume agreed registration (with_pair agreed)).1 in
    (get "pair1" s'.pairs ≡ some (record agreed { state = consumed }))
    × (assert_registerable config (λ k. none) 10 form s' ≡ (err (at state_transition "pair"), s'))
    × (propose config (λ k. none) 10 form s' ≡ (err (at state_transition "pair"), s'))
    × ¬ Answers config 10 registration s'
unfolding get get_pair assert_live check_code check_challenge check_key_and_proof check_profiles
    check_registration validate_registration check_approved assert_registerable
    validate_registration_shape check_key missing_key stray_key string_set unique_strings
    check_capabilities is_pair_code is_id is_hash64 is_count
registers_once_example =
    registers_once config (λ k. none) 9 form (with_pair agreed) agreed registration (emit_one ∷ [])
      (refl, refl, tt) (refl, refl, tt) refl (λ k. none) 10 registration refl

abbrev minted : Fresh
minted = record { pair = "pair2"; code = bad_code }

abbrev invites : CreateParams
invites = record { role = agent; scopes = emit_all ∷ []; key = none }

invitations_bounded_example :
    let (answer, s') = create_invitation config 9 minted invites (with_pair invitation) in
    ((128 ≤ pending_count config 9 (with_pair invitation))
      × (answer ≡ err (at busy "pair"))
      × (s' ≡ with_pair invitation))
    ⊎ ((answer ≡ ok ("pair2", bad_code, 300009))
        × (get "pair2" s'.pairs ≡ some (invited config 9 minted invites))
        × (pending_count config 9 s' ≡ suc (pending_count config 9 (with_pair invitation)))
        × (pending_count config 9 s' ≤ 128))
unfolding get
invitations_bounded_example =
    invitations_bounded config 9 minted invites (with_pair invitation) refl

abbrev expired_row : PairRecord
expired_row = record invitation { state = expired; attempts = 4 }

abbrev calls : List Call
calls =
    looks 5 "pair1" (some bad_code)
    ∷ creates 6 minted invites
    ∷ registers (λ k. none) 9 form none
    ∷ cancels 11 "pair2"
    ∷ []

pairs_settle_example :
    EntryLater PairLater
      (get "pair1" (with_pair agreed).pairs)
      (get "pair1" (run config calls (with_pair agreed)).pairs)
unfolding get step get_pair_view noted get_pair check_code_given fail_attempt is_pair_code put
pairs_settle_example =
    pairs_settle config calls (with_pair agreed) (refl, refl, tt) (tt, (refl, (tt, (tt, tt))))
      "pair1"
