-- ===== src/Daemon/Auth/Nonces.antt =====
-- packages/gateway-daemon/src/rpc/auth.ts: a nonce serves one proof while the grant lasts, for any store that
-- remembers nonces.
use latticeag_gateway.Base.{
  ℕ, ◌<◌, String, Bool, false, ◌≡◌, refl, sym, inl, inr, Option, none, some, List, [], ◌∷◌, arith,
  Bool-cases, Option-cases, All, subst,
}
use latticeag_gateway.Protocol.Lexical.{bearer}
use latticeag_gateway.Protocol.Errors.{RpcError, auth_required, plain}
use latticeag_gateway.Exec.{Result, ok, err, pure, throw_if, ◌>>=◌, ◌>>◌}
use latticeag_gateway.Exec.Bind.{bind_keeps}
use latticeag_gateway.Daemon.Envelope.{Request}
use latticeag_gateway.Daemon.Auth.{
  AuthEnv, Principal, PeerGrant, PeerTokenStore, PeerProofHeaders, resolve_peer_principal,
  use_nonce, check_grant, check_window, check_signature, granted,
}
use latticeag_gateway.Peers.Proofs.{is_size, nonce_bytes}
use latticeag_gateway.Daemon.Auth.Tokens.{Remembers}

module _ {G N : Type 0} (t : PeerTokenStore G N) (env : AuthEnv) where
  -- The grant that the request's access token belongs to.
  abbrev pub token_grant : PeerProofHeaders → G → Option PeerGrant
  token_grant h g = elim (bearer h.authorization) [
    | none ↦ none
    | some access ↦ t.lookup_access (env.sha256 access) g
  ]

  -- An accepted request: its grant is known and lasts, and its nonce was new.
  accepted_lem :
      (now : ℕ) (h : PeerProofHeaders) (r : Request) (g : G) (s : N) (p : Principal)
      → (resolve_peer_principal t env now h r g s).0 ≡ ok p
      → (x : PeerGrant) × (token_grant h g ≡ some x)
        × (p ≡ granted x)
        × (now < x.expires_ms)
        × ((t.nonce_seen now x.peer h.nonce x.expires_ms s).0 ≡ false)
        × ((resolve_peer_principal t env now h r g s).1
            ≡ (t.nonce_seen now x.peer h.nonce x.expires_ms s).1)
  unfolding resolve_peer_principal check_grant check_window use_nonce check_signature
  accepted_lem now h r g s p e = elim (Option-cases (bearer h.authorization)) [
    | inl bad ↦ absurd (ground (arith, e, bad))
    | inr (access, is) ↦ elim (Option-cases (t.lookup_access (env.sha256 access) g)) [
      | inl unknown ↦ absurd (ground (arith, e, is, unknown))
      | inr (x, found) ↦ (
        x,
        ground (arith, is, found),
        ground (arith, e, is, found),
        ground (arith, e, is, found),
        ground (arith, e, is, found),
        ground (arith, e, is, found),
      )
    ]
  ]

  grant_same :
      (now : ℕ) (h : PeerProofHeaders) (x : PeerGrant) (s : N) → (check_grant env now h x s).1 ≡ s
  unfolding check_grant
  grant_same now h x s = ground arith

  window_same :
      (now : ℕ) (h : PeerProofHeaders) (x : PeerGrant) (s : N) → (check_window now h x s).1 ≡ s
  unfolding check_window
  window_same now h x s = ground arith

  signature_same :
      (h : PeerProofHeaders) (r : Request) (a : String) (x : PeerGrant) (s : N)
      → (check_signature env h r a x s).1 ≡ s
  unfolding check_signature
  signature_same h r a x s = ground arith

  module _ (P : N → Type 0) (now : ℕ)
      (k : (q m : String) (v : ℕ) (s : N) → P s → P (t.nonce_seen now q m v s).1) where
    nonce_keeps : (n : String) (x : PeerGrant) (s : N) → P s → P (use_nonce t env now n x s).1
    unfolding use_nonce
    nonce_keeps n x s p = elim (Bool-cases (is_size nonce_bytes (env.b64u_length n))) [
      | inl fits ↦ rw fits (
          subst P (sym (seen_same (t.nonce_seen now x.peer n x.expires_ms s)))
            (k x.peer n x.expires_ms s p))
      | inr bad ↦ rw bad p
    ]
      where
        seen_same :
            (o : Bool × N)
            → (((λ n. (ok o.0, o.1)) >>= λ seen. throw_if seen (plain auth_required)) s).1 ≡ o.1
        seen_same (b, n') = refl

    -- Whatever a look for a nonce keeps, the whole resolution keeps.
    resolve_keeps :
        (h : PeerProofHeaders) (r : Request) (g : G) (s : N)
        → P s
        → P (resolve_peer_principal t env now h r g s).1
    unfolding resolve_peer_principal
    resolve_keeps h r g s p = elim (Option-cases (bearer h.authorization)) [
      | inl bad ↦ rw bad p
      | inr (access, is) ↦ elim (Option-cases (t.lookup_access (env.sha256 access) g)) [
        | inl unknown ↦ rw (is, unknown) p
        | inr (x, found) ↦ rw (is, found) (known access x)
      ]
    ]
      where
        known :
            (a : String) (x : PeerGrant)
            → P
                ((check_grant env now h x
                    >> (check_window now h x
                        >> (use_nonce t env now h.nonce x
                            >> (check_signature env h r (env.sha256 a) x >> pure (granted x)))))
                  s).1
        known a x =
            bind_keeps P (check_grant env now h x)
              (λ _.
                check_window now h x
                >> (use_nonce t env now h.nonce x
                    >> (check_signature env h r (env.sha256 a) x >> pure (granted x))))
              s (rw (grant_same now h x s) p)
              (λ _ s1 p1.
                bind_keeps P (check_window now h x)
                  (λ _.
                    use_nonce t env now h.nonce x
                    >> (check_signature env h r (env.sha256 a) x >> pure (granted x)))
                  s1 (rw (window_same now h x s1) p1)
                  (λ _ s2 p2.
                    bind_keeps P (use_nonce t env now h.nonce x)
                      (λ _. check_signature env h r (env.sha256 a) x >> pure (granted x)) s2
                      (nonce_keeps h.nonce x s2 p2)
                      (λ _ s3 p3.
                        bind_keeps P (check_signature env h r (env.sha256 a) x)
                          (λ _. pure (granted x)) s3
                          (rw (signature_same h r (env.sha256 a) x s3) p3) (λ _ s4 p4. p4))))

-- A request of a peer, with the environment, the clock and the grants at its time.
pub record Ask (G : Type 0) : Type 0 where
  pub env : AuthEnv
  pub now : ℕ
  pub headers : PeerProofHeaders
  pub request : Request
  pub grants : G

module _ {G N : Type 0} (t : PeerTokenStore G N) where
  abbrev pub asked : Ask G → N → Result Principal × N
  asked a = resolve_peer_principal t a.env a.now a.headers a.request a.grants

  abbrev pub grant_asked : Ask G → Option PeerGrant
  grant_asked a = token_grant t a.env a.headers a.grants

  unfoldable pub run : List (Ask G) → N → N
  run [] s = s
  run (a ∷ xs) s = run xs (asked a s).1

  module _ (law : Remembers t) where
    held_run :
        (p n : String) (u : ℕ) (xs : List (Ask G)) (s : N)
        → All (λ a. a.now < u) xs
        → law.Holds p n u s
        → law.Holds p n u (run xs s)
    unfolding run
    held_run p n u [] s early h = h
    held_run p n u (a ∷ xs) s early h = held_run p n u xs (asked a s).1 early.1 (
        resolve_keeps t a.env (law.Holds p n u) a.now
          (λ q m v s' held. law.keeps a.now q m v p n u s' early.0 held) a.headers a.request
          a.grants s h)

    -- Once a request was accepted for a grant, no request for a grant of the same peer with the same nonce
    -- is accepted while the first grant lasts: whatever requests come in between in that time, and whatever
    -- becomes of the grants.
    pub nonce_serves_once :
        (a : Ask G) (s : N) (p : Principal) (x : PeerGrant) (xs : List (Ask G)) (b : Ask G)
        (y : PeerGrant)
        → (asked a s).0 ≡ ok p
        → grant_asked a ≡ some x
        → All (λ c. c.now < x.expires_ms) xs
        → b.now < x.expires_ms
        → grant_asked b ≡ some y
        → y.peer ≡ x.peer
        → b.headers.nonce ≡ a.headers.nonce
        → (e : RpcError) × ((asked b (run xs (asked a s).1)).0 ≡ err e)
    nonce_serves_once a s p x xs b y accepted known early in_time other same_peer same_nonce =
        go (asked b (run xs (asked a s).1)).0 refl
      where
        held : law.Holds y.peer b.headers.nonce x.expires_ms (run xs (asked a s).1)
        held =
            let (z, found, own, lasts, new, after) =
              accepted_lem t a.env a.now a.headers a.request a.grants s p accepted in
            let is : z ≡ x = ground (arith, found, known) in
            let first : law.Holds x.peer a.headers.nonce x.expires_ms (asked a s).1 =
              rw after
                (rw is (law.records a.now x.peer a.headers.nonce x.expires_ms s (rw (← is) new))) in
            rw (same_peer, same_nonce)
              (held_run x.peer a.headers.nonce x.expires_ms xs (asked a s).1 early first)

        go :
            (o : Result Principal)
            → (asked b (run xs (asked a s).1)).0 ≡ o
            → (e : RpcError) × ((asked b (run xs (asked a s).1)).0 ≡ err e)
        go (err e) is = (e, is)
        go (ok q) is =
            let (z, found, own, lasts, new, after) =
              accepted_lem t b.env b.now b.headers b.request b.grants (run xs (asked a s).1) q is in
            let same : z ≡ y = ground (arith, found, other) in
            let used =
              law.refuses b.now y.peer b.headers.nonce y.expires_ms x.expires_ms
                (run xs (asked a s).1) in_time held in
            let fresh : (t.nonce_seen b.now y.peer b.headers.nonce y.expires_ms
                  (run xs (asked a s).1)).0
                ≡ false =
              rw (← same) new in
            absurd (ground (arith, used, fresh))
