-- ===== src/Daemon/Auth.antt =====
-- packages/gateway-daemon/src/rpc/auth.ts: how the credentials of a transport become a principal. The store
-- of the peers' tokens is the interface `PeerTokenStore`, with `G` what it knows of grants and `N` of nonces.
pub mod Tokens
pub mod Memory
pub mod Nonces
pub mod Revoked
use Prim.Native.String.{◌++◌}
use latticeag_gateway.Base.{
  ℕ, ◌+◌, String, Bool, true, false, not, ◌&&◌, ◌||◌, Option, none, some, List, [], ◌∷◌, ◌=ₛ◌, leb,
  ltb, if◌then◌else◌,
}
use latticeag_gateway.Base.Int.{max_safe}
use latticeag_gateway.Protocol.Errors.{auth_required, token_revoked, token_expired, plain}
use latticeag_gateway.Protocol.Lexical.{is_digits, decimal, bearer, is_id}
use latticeag_gateway.Protocol.Values.{Value}
use latticeag_gateway.Protocol.Methods.{Role}
use latticeag_gateway.Protocol.Peers.{Scope, Tier}
use latticeag_gateway.Exec.{Result, ok, err, Exec, pure, or_throw, ◌>>=◌, ◌>>◌, throw_if}
use latticeag_gateway.Peers.Proofs.{
  RequestBody, is_body, is_size, proof_ttl_ms, proof_issued_skew_ms, nonce_bytes,
}
use latticeag_gateway.Peers.Scopes.{
  PrincipalRole, viewing, acting, operating, operating_locally, bootstrapping,
}
use latticeag_gateway.Daemon.Envelope.{Request}
use latticeag_gateway.Daemon.Sessions.{SessionRole, SessionRecord}

pub record Principal : Type 0 where
  pub id : String
  pub role : PrincipalRole
  pub peer : Option String
  pub scopes : List Scope
  pub reviewer : Bool

-- `principalRoles`
unfoldable pub principal_roles : Principal → List Role
principal_roles p = elim p.role [
  | operating_locally ↦ Role.local ∷ Role.operators ∷ Role.viewer ∷ []
  | operating ↦ Role.operators ∷ Role.viewer ∷ []
  | viewing ↦ Role.viewer ∷ []
  | acting ↦ if p.reviewer then Role.agents ∷ Role.reviewers ∷ [] else Role.agents ∷ []
  | bootstrapping ↦ Role.pairing ∷ []
]

pub record PeerGrant : Type 0 where
  pub peer : String
  pub public_key : String
  pub role : Tier
  pub scopes : List Scope
  pub expires_ms : ℕ
  pub revoked : Bool
  pub epoch : String
  pub reviewer : Bool

-- `nonce_seen now peer nonce until` tells whether the nonce was there, and records it if not.
pub record PeerTokenStore (G N : Type 0) : Type 0 where
  pub lookup_access : String → G → Option PeerGrant
  pub nonce_seen : ℕ → String → String → ℕ → N → Bool × N

pub record PeerProofHeaders : Type 0 where
  pub authorization : String
  pub nonce : String
  pub epoch : String
  pub issued_ms : String
  pub expires_ms : String
  pub key_proof : String

-- `extractPeerProofHeaders`; `get` tells the value of a header.
unfoldable pub extract_peer_proof_headers : (String → Option String) → Option PeerProofHeaders
extract_peer_proof_headers get =
    six (get "authorization") (get "x-latticeag-nonce") (get "x-latticeag-epoch")
      (get "x-latticeag-issued-ms") (get "x-latticeag-expires-ms") (get "x-latticeag-key-proof")
  where
    six :
        Option String
        → Option String
        → Option String
        → Option String
        → Option String
        → Option String
        → Option PeerProofHeaders
    six (some a) (some n) (some e) (some i) (some x) (some k) = some (record {
      authorization = a;
      nonce = n;
      epoch = e;
      issued_ms = i;
      expires_ms = x;
      key_proof = k;
    })
    six _ _ _ _ _ _ = none

-- PeerAuthEnv, and the functions of crypto/ that the code calls: the hash of a text, the hash of the
-- canonical text of parameters (none where they have none), the length of a canonical base64url text, and
-- the verification of a signed body.
pub record AuthEnv : Type 0 where
  pub instance_id : String
  pub workspace : String
  pub epoch : String
  pub sha256 : String → String
  pub params_sha256 : Value → Option String
  pub b64u_length : String → Option ℕ
  pub verify_request : RequestBody → String → String → Bool

abbrev pub proof_body : AuthEnv → PeerProofHeaders → Request → String → String → RequestBody
proof_body env h r token_hash params_sha256 = record {
  gateway = env.instance_id;
  workspace = r.workspace;
  epoch = h.epoch;
  token_hash = token_hash;
  id = r.id;
  method = r.method;
  params_sha256 = params_sha256;
  nonce = h.nonce;
  issued_ms = decimal 0 h.issued_ms;
  expires_ms = decimal 0 h.expires_ms;
}

abbrev pub tier_role : Tier → PrincipalRole
tier_role Tier.operator = operating
tier_role Tier.agent = acting

abbrev pub granted : PeerGrant → Principal
granted g = record {
  id = g.peer;
  role = tier_role g.role;
  peer = some g.peer;
  scopes = g.scopes;
  reviewer = g.reviewer;
}

module _ {N : Type 0} where
  -- The checks on the grant that the token belongs to.
  unfoldable pub check_grant : AuthEnv → ℕ → PeerProofHeaders → PeerGrant → Exec N (Unit {0})
  check_grant env now h g = do
    throw_if g.revoked (plain token_revoked)
    throw_if (leb g.expires_ms now) (plain token_expired)
    throw_if (not (h.epoch =ₛ env.epoch) || not (h.epoch =ₛ g.epoch)) (plain auth_required)

  -- The freshness of the proof.
  unfoldable pub check_window : ℕ → PeerProofHeaders → PeerGrant → Exec N (Unit {0})
  check_window now h g = do
    throw_if (not (is_digits h.issued_ms) || not (is_digits h.expires_ms)) (plain auth_required)
    throw_if (not (leb issued max_safe) || not (leb expires max_safe)) (plain auth_required)
    throw_if (ltb (issued + proof_ttl_ms) expires) (plain auth_required)
    throw_if (ltb (now + proof_issued_skew_ms) issued) (plain auth_required)
    throw_if (leb expires now) (plain auth_required)
    throw_if (ltb g.expires_ms expires) (plain auth_required)
    where
      issued : ℕ
      issued = decimal 0 h.issued_ms

      expires : ℕ
      expires = decimal 0 h.expires_ms

  unfoldable pub check_signature :
      AuthEnv → PeerProofHeaders → Request → String → PeerGrant → Exec N (Unit {0})
  check_signature env h r token_hash g = do
    params ← or_throw (env.params_sha256 r.params) (plain auth_required)
    throw_if (not (is_body (proof_body env h r token_hash params))) (plain auth_required)
    throw_if
        (not (env.verify_request (proof_body env h r token_hash params) h.key_proof g.public_key))
        (plain auth_required)
    throw_if (not (is_id g.peer)) (plain auth_required)

module _ {G N : Type 0} (t : PeerTokenStore G N) where
  unfoldable pub use_nonce : AuthEnv → ℕ → String → PeerGrant → Exec N (Unit {0})
  use_nonce env now nonce g = do
    throw_if (not (is_size nonce_bytes (env.b64u_length nonce))) (plain auth_required)
    seen ← (λ n. let (b, n') = t.nonce_seen now g.peer nonce g.expires_ms n in (ok b, n'))
    throw_if seen (plain auth_required)

  unfoldable pub resolve_peer_principal :
      AuthEnv → ℕ → PeerProofHeaders → Request → G → Exec N Principal
  unfolding check_grant check_window use_nonce check_signature
  resolve_peer_principal env now h r grants = do
    access ← or_throw (bearer h.authorization) (plain auth_required)
    g ← or_throw (t.lookup_access (env.sha256 access) grants) (plain auth_required)
    check_grant env now h g
    check_window now h g
    use_nonce env now h.nonce g
    check_signature env h r (env.sha256 access) g
    pure (granted g)

pub data TransportCredentials : Type 0 where
  by_socket anonymous : TransportCredentials
  by_session : SessionRecord → TransportCredentials
  by_peer : PeerProofHeaders → TransportCredentials

abbrev pub session_role : SessionRole → PrincipalRole
session_role SessionRole.viewer = viewing
session_role SessionRole.operator = operating

abbrev pub without_peer : String → PrincipalRole → Principal
without_peer id role = record { id = id; role = role; peer = none; scopes = []; reviewer = false }

module _ {G N : Type 0} (t : PeerTokenStore G N) where
  unfoldable pub resolve_principal :
      TransportCredentials → AuthEnv → ℕ → Request → G → Exec N Principal
  unfolding resolve_peer_principal
  resolve_principal by_socket env now r g = pure (without_peer "local" operating_locally)
  resolve_principal (by_session s) env now r g =
      pure (without_peer ("session:" ++ s.id) (session_role s.role))
  resolve_principal anonymous env now r g = pure (without_peer "anonymous" bootstrapping)
  resolve_principal (by_peer h) env now r g = resolve_peer_principal t env now h r g
