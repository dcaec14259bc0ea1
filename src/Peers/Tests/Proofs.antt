-- ===== src/Peers/Tests/Proofs.antt =====
-- A request with its proof, and what comes after it.
use latticeag_gateway.Base.{
  arith, ◌==◌, ℕ, true, if◌then◌else◌, String, ◌&&◌, ◌≡◌, refl, some, [], ◌∷◌, ◌=ₛ◌,
}
use latticeag_gateway.Base.Table.{get, put, find_value, values}
use latticeag_gateway.Protocol.Errors.{RpcError}
use latticeag_gateway.Protocol.Lexical.{is_hash64, is_count}
use latticeag_gateway.Exec.{ok, err}
use latticeag_gateway.Peers.Ports.{GrantRecord, grant_by_access_hash}
use latticeag_gateway.Peers.Tokens.{verify_access}
use latticeag_gateway.Peers.Proofs.{
  Context, Request, ProofStore, store_backed, verify_request_proof, verify_freshness,
  assert_nonce_unused, assert_signature,
}
use latticeag_gateway.Peers.Proofs.Once.{asks, others, run, nonce_once}
use latticeag_gateway.Peers.Proofs.Headers.{read_proof_headers}
use latticeag_gateway.Peers.Proofs.RoundTrip.{Names, wire_names, write_headers, read-write_headers}
use latticeag_gateway.Peers.Tests.Tokens.{config, bob, grant1, store}

abbrev hash : String
hash = "00000000000000000000000000000000000000000000000000000000000000ab"

abbrev grant : GrantRecord
grant = record grant1 { access_hash = hash }

abbrev rows : ProofStore
rows = record { store = record store { grants = ("g1", grant) ∷ [] }; nonces = [] }

abbrev context : Context
context = record {
  tokens = config;
  nonce_ports = store_backed;
  gateway = "gw";
  workspace = "ws";
  epoch = "3";
  b64u_length = λ s. some 32;
  verify_request = λ body proof key. proof =ₛ "sig" && key =ₛ "pub";
}

abbrev request : Request
request = record {
  access = hash;
  id = "r1";
  method = "run.register";
  params_sha256 = hash;
  proof = record { nonce = "n"; epoch = "3"; issued_ms = 5; expires_ms = 900; proof = "sig" };
}

accepted : (verify_request_proof context 6 request rows).0 ≡ ok (grant, bob)
unfolding verify_request_proof verify_freshness assert_nonce_unused assert_signature verify_access
    grant_by_access_hash find_value values get is_hash64
accepted = refl

nonce_once_example :
    (x : RpcError) × ((verify_request_proof context 9 request (
        run
          (asks context 8 request ∷ others store ∷ [])
          (verify_request_proof context 6 request rows).1)).0
      ≡ err x)
nonce_once_example =
    nonce_once context 6 request rows grant bob (asks context 8 request ∷ others store ∷ []) context
      9 request accepted (omega arith, (tt, tt)) (omega arith) refl refl

-- Another request with that nonce, signed for a time after the first proof.
abbrev later_request : Request
later_request = record request {
  proof = record { nonce = "n"; epoch = "3"; issued_ms = 950; expires_ms = 990; proof = "sig" };
}

-- The ports of the daemon let a nonce serve again after its first proof, while its token lasts.
replay_after_proof :
    (verify_request_proof context 960 later_request
      (verify_request_proof context 6 request rows).1).0
    ≡ ok (grant, bob)
unfolding verify_request_proof verify_freshness assert_nonce_unused assert_signature verify_access
    grant_by_access_hash find_value values get put is_hash64
replay_after_proof = refl

abbrev show : ℕ → String
show k = if k == 5 then "5" else "900"

abbrev number : String → ℕ
number s = if s =ₛ "5" then 5 else 900

-- The lower case of the names' spellings here is their spelling on the wire.
abbrev lower : String → String
lower s = if s =ₛ "x-latticeag-nonce" then "X-LatticeAG-Nonce" else s

abbrev spelled : Names
spelled = record wire_names { nonce = "x-latticeag-nonce" }

decimal_five : is_count (show 5) ≡ true
unfolding is_count
decimal_five = refl

decimal_nine_hundred : is_count (show 900) ≡ true
unfolding is_count
decimal_nine_hundred = refl

read-write_headers_example :
    read_proof_headers lower number (write_headers show spelled request.proof) ≡ ok request.proof
read-write_headers_example =
    read-write_headers lower spelled refl refl number show request.proof refl refl decimal_five
      decimal_nine_hundred
