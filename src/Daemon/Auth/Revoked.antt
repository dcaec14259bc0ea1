-- ===== src/Daemon/Auth/Revoked.antt =====
-- packages/gateway-daemon/src/rpc/auth.ts over the rows of the peers: a revoked peer makes no more calls.
use latticeag_gateway.Base.{
  ℕ, String, true, false, ◌≡◌, refl, ap, ◌∙◌, Option, none, some, arith, eq_refl, inl, inr,
  Option-cases,
}
use latticeag_gateway.Base.Table.{Table, get}
use latticeag_gateway.Protocol.Errors.{token_revoked, plain}
use latticeag_gateway.Protocol.Lexical.{bearer}
use latticeag_gateway.Exec.{err}
use latticeag_gateway.Peers.Ports.{Store, StoredPeer, GrantRecord, grant_by_access_hash}
use latticeag_gateway.Peers.Registry.{revoke, is_revoked}
use latticeag_gateway.Peers.Registry.Revocation.{IsKeyed, revoked_peer, revoke_closes_all}
use latticeag_gateway.Daemon.Envelope.{Request}
use latticeag_gateway.Daemon.Auth.{
  AuthEnv, PeerGrant, PeerProofHeaders, resolve_peer_principal, check_grant,
}
use latticeag_gateway.Daemon.Auth.Nonces.{token_grant}
use latticeag_gateway.Daemon.Auth.Tokens.{durable, lookup_access, peer_grant, grant_of}

of_peer :
    (g : GrantRecord) (o : Option StoredPeer) (x : PeerGrant)
    → grant_of g o ≡ some x
    → (p : StoredPeer) × (o ≡ some p) × (x.peer ≡ g.peer) × (is_revoked p ≡ true → x.revoked ≡ true)
of_peer g none x h = absurd (ground arith)
of_peer g (some p) x h = (p, refl, ground (arith, h), λ e. ground (arith, h, e))

of_grant :
    (s : Store) (o : Option GrantRecord) (x : PeerGrant)
    → peer_grant s o ≡ some x
    → (p : StoredPeer) × (get x.peer s.peers ≡ some p) × (is_revoked p ≡ true → x.revoked ≡ true)
of_grant s none x h = absurd (ground arith)
of_grant s (some g) x h =
    let (p, found, own, gone) = of_peer g (get g.peer s.peers) x h in
    (p, ap (λ k. get k s.peers) own ∙ found, gone)

refused_lem :
    (env : AuthEnv) (now : ℕ) (h : PeerProofHeaders) (q : Request) (s : Store) (n : Table ℕ)
    (x : PeerGrant)
    → token_grant durable env h s ≡ some x
    → x.revoked ≡ true
    → (resolve_peer_principal durable env now h q s n).0 ≡ err (plain token_revoked)
unfolding resolve_peer_principal check_grant
refused_lem env now h q s n x known gone = elim (Option-cases (bearer h.authorization)) [
  | inl bad ↦ absurd (ground (arith, known, bad))
  | inr (access, is) ↦ ground (arith, known, is, gone)
]

known_lem :
    (env : AuthEnv) (h : PeerProofHeaders) (s : Store) (x : PeerGrant)
    → token_grant durable env h s ≡ some x
    → (p : StoredPeer) × (get x.peer s.peers ≡ some p) × (is_revoked p ≡ true → x.revoked ≡ true)
unfolding durable lookup_access
known_lem env h s x known = elim (Option-cases (bearer h.authorization)) [
  | inl bad ↦ absurd (ground (arith, known, bad))
  | inr (access, is) ↦
      of_grant s (grant_by_access_hash (env.sha256 access) s) x (ground (arith, known, is))
]

-- After the revocation of a peer, in a store whose rows stand under their own ids, every request with an
-- access token of the peer is TOKEN_REVOKED, whatever its proof and whatever nonces were used.
pub revoked_calls_refused :
    (peer : String) (s : Store) (r : StoredPeer) (env : AuthEnv) (now : ℕ) (h : PeerProofHeaders)
    (q : Request) (n : Table ℕ) (x : PeerGrant)
    → IsKeyed s
    → get peer s.peers ≡ some r
    → is_revoked r ≡ false
    → token_grant durable env h (revoke peer s).1 ≡ some x
    → x.peer ≡ peer
    → (resolve_peer_principal durable env now h q (revoke peer s).1 n).0 ≡ err (plain token_revoked)
revoked_calls_refused peer s r env now h q n x keyed found live known own =
    let there = (revoke_closes_all peer s r keyed found live peer).0 in
    let (p, row, gone) = known_lem env h (revoke peer s).1 x known in
    let is : p ≡ revoked_peer r = ground (arith, there, row, own, eq_refl peer) in
    refused_lem env now h q (revoke peer s).1 n x known (gone (rw is refl))
