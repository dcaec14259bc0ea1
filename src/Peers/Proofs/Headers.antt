-- ===== src/Peers/Proofs/Headers.antt =====
-- packages/core/src/v2/peers/proofs.ts: readProofHeaders. Names of headers do not regard case; `lower` is
-- toLowerCase, `number` is Number on a canonical decimal.
use latticeag_gateway.Base.{ℕ, String, Bool, true, false, ◌&&◌, Option, none, List, [], ◌∷◌, ◌=ₛ◌}
use latticeag_gateway.Protocol.Errors.{RpcError, auth_required, plain}
use latticeag_gateway.Protocol.Lexical.{is_count}
use latticeag_gateway.Exec.{Result, ok, or_err}
use latticeag_gateway.Exec.Checks.{◌>>=◌, ◌>>◌, require}
use latticeag_gateway.Peers.Proofs.{ProofFields}

abbrev pub found_header : Bool → Option String → Option String → Option String
found_header true v rest = v
found_header false v rest = rest

-- The function `get`: the first header of the name; its value may be undefined.
unfoldable pub header : (String → String) → String → List (String × Option String) → Option String
header lower name [] = none
header lower name ((k, v) ∷ hs) = found_header (lower k =ₛ lower name) v (header lower name hs)

abbrev missing : RpcError
missing = plain auth_required

unfoldable pub read_proof_headers :
    (String → String) → (String → ℕ) → List (String × Option String) → Result ProofFields
read_proof_headers lower number hs = do
  nonce ← or_err missing (header lower "X-LatticeAG-Nonce" hs)
  epoch ← or_err missing (header lower "X-LatticeAG-Epoch" hs)
  issued ← or_err missing (header lower "X-LatticeAG-Issued-Ms" hs)
  expires ← or_err missing (header lower "X-LatticeAG-Expires-Ms" hs)
  proof ← or_err missing (header lower "X-LatticeAG-Key-Proof" hs)
  require (is_count issued && is_count expires) missing
  ok (record {
    nonce = nonce;
    epoch = epoch;
    issued_ms = number issued;
    expires_ms = number expires;
    proof = proof;
  })
