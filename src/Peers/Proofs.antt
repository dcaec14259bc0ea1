-- ===== src/Peers/Proofs.antt =====
-- packages/core/src/v2/peers/proofs.ts: the proof of possession that every request of a peer carries. The
-- numbers of its headers are decimals, so they are natural numbers.
pub mod Headers
pub mod Once
pub mod RoundTrip
use Prim.Native.String.{◌++◌}
use latticeag_gateway.Base.{
  ℕ, ◌+◌, ◌-◌, String, Bool, true, false, not, ◌&&◌, ◌||◌, Option, none, some, List, [], ◌∷◌, ◌==◌,
  ◌=ₛ◌, leb, ltb, if◌then◌else◌,
}
use latticeag_gateway.Base.Int.{max_safe}
use latticeag_gateway.Base.Table.{Table, get, put}
use latticeag_gateway.Protocol.Errors.{auth_required, plain}
use latticeag_gateway.Protocol.Lexical.{is_count, is_hash64}
use latticeag_gateway.Exec.{
  Result, ok, err, Exec, pure, throw, or_throw, or_err, gets, ◌>>=◌, ◌>>◌, throw_if, modify,
}
use latticeag_gateway.Peers.Ports.{Store, StoredPeer, GrantRecord}
use latticeag_gateway.Peers.Tokens.{Config, verify_access}

abbrev pub proof_ttl_ms : ℕ
proof_ttl_ms = 60000

abbrev pub proof_issued_skew_ms : ℕ
proof_issued_skew_ms = 5000

abbrev pub nonce_bytes : ℕ
nonce_bytes = 32

pub record ProofFields : Type 0 where
  pub nonce : String
  pub epoch : String
  pub issued_ms : ℕ
  pub expires_ms : ℕ
  pub proof : String

-- requestProofBody of packages/core/src/v2/crypto/pairing.ts
pub record RequestBody : Type 0 where
  pub gateway : String
  pub workspace : String
  pub epoch : String
  pub token_hash : String
  pub id : String
  pub method : String
  pub params_sha256 : String
  pub nonce : String
  pub issued_ms : ℕ
  pub expires_ms : ℕ

-- The ports that keep the used nonces: createMemoryPeerPorts, whose map keeps a nonce for good, or
-- StoreBackedPeerPorts of packages/gateway-daemon/src/adapters/store-ports.ts, which knows one until the time
-- that is written with it.
pub data NoncePorts : Type 0 where
  in_memory store_backed : NoncePorts

pub record Context : Type 0 where
  pub tokens : Config
  pub nonce_ports : NoncePorts
  pub gateway : String
  pub workspace : String
  pub epoch : String
  -- the length of a canonical base64url text
  pub b64u_length : String → Option ℕ
  -- verifyRequest: the body, the signature, the public key
  pub verify_request : RequestBody → String → String → Bool

pub record Request : Type 0 where
  pub access : String
  pub id : String
  pub method : String
  pub params_sha256 : String
  pub proof : ProofFields

-- The rows of the peers, and the map of the used nonces.
pub record ProofStore : Type 0 where
  pub store : Store
  pub nonces : Table ℕ

-- `verifyFreshness`
unfoldable pub verify_freshness :
    Context → ℕ → GrantRecord → ProofFields → Exec ProofStore (Unit {0})
verify_freshness c now g p = do
  throw_if (not (leb p.issued_ms max_safe) || not (leb p.expires_ms max_safe)) (plain auth_required)
  throw_if (ltb (p.issued_ms + proof_ttl_ms) p.expires_ms) (plain auth_required)
  throw_if (leb p.expires_ms p.issued_ms) (plain auth_required)
  throw_if (ltb (now + proof_issued_skew_ms) p.issued_ms) (plain auth_required)
  throw_if (leb p.expires_ms now) (plain auth_required)
  throw_if (ltb g.access_expires_ms p.expires_ms) (plain auth_required)
  throw_if (not (p.epoch =ₛ c.epoch) || not (p.epoch =ₛ g.epoch)) (plain auth_required)

abbrev pub is_size : ℕ → Option ℕ → Bool
is_size n none = false
is_size n (some m) = m == n

-- `hasNonce`, with the row of the nonce.
abbrev pub is_used : NoncePorts → ℕ → Option ℕ → Bool
is_used ports now none = false
is_used in_memory now (some expires_ms) = true
is_used store_backed now (some expires_ms) = ltb now expires_ms

abbrev pub nonce_key : String → String → String
nonce_key token_hash nonce = token_hash ++ (":" ++ nonce)

-- `assertNonceUnused`
unfoldable pub assert_nonce_unused : Context → ℕ → GrantRecord → String → Exec ProofStore (Unit {0})
assert_nonce_unused c now g nonce = do
  throw_if (not (is_size nonce_bytes (c.b64u_length nonce))) (plain auth_required)
  used ← gets (λ s. is_used c.nonce_ports now (get (nonce_key g.access_hash nonce) s.nonces))
  throw_if used (plain auth_required)

abbrev pub body_of : Context → GrantRecord → Request → RequestBody
body_of c g r = record {
  gateway = c.gateway;
  workspace = c.workspace;
  epoch = r.proof.epoch;
  token_hash = g.access_hash;
  id = r.id;
  method = r.method;
  params_sha256 = r.params_sha256;
  nonce = r.proof.nonce;
  issued_ms = r.proof.issued_ms;
  expires_ms = r.proof.expires_ms;
}

-- The lexical checks of requestProofBody.
abbrev pub is_body : RequestBody → Bool
is_body b =
    is_hash64 b.token_hash
    && is_hash64 b.params_sha256
    && leb b.issued_ms max_safe
    && leb b.expires_ms max_safe

-- `assertSignature`
unfoldable pub assert_signature :
    Context → GrantRecord → StoredPeer → Request → Exec ProofStore (Unit {0})
assert_signature c g peer r = do
  throw_if (not (is_body (body_of c g r))) (plain auth_required)
  throw_if (not (c.verify_request (body_of c g r) r.proof.proof peer.key_material.public))
      (plain auth_required)

-- A method of the tokens, on their part of the store.
abbrev pub on_store : {A : Type 0} → Exec Store A → Exec ProofStore A
on_store m s = let (r, t) = m s.store in (r, record s { store = t })

abbrev pub earlier : ℕ → ℕ → ℕ
earlier a b = if leb a b then a else b

unfoldable pub verify_request_proof :
    Context → ℕ → Request → Exec ProofStore (GrantRecord × StoredPeer)
unfolding verify_freshness assert_nonce_unused assert_signature
verify_request_proof c now r = do
  (g, peer) ← on_store (verify_access c.tokens now r.access)
  verify_freshness c now g r.proof
  assert_nonce_unused c now g r.proof.nonce
  assert_signature c g peer r
  modify (λ s. record s {
    nonces =
        put (nonce_key g.access_hash r.proof.nonce) (earlier r.proof.expires_ms g.access_expires_ms)
          s.nonces;
  })
  pure (g, peer)
