-- ===== src/Peers/Proofs/Once.antt =====
-- packages/core/src/v2/peers/proofs.ts: when the proof of a request is accepted, and that its nonce is then
-- used up.
use latticeag_gateway.Base.{
  ℕ, ◌+◌, ◌≤◌, ◌<◌, String, true, false, ◌≡◌, ◌↔◌, refl, ap, sym, ◌∙◌, Option, some, List, [], ◌∷◌,
  arith, eq_iff, find-holds, All, Bool-cases, inl, inr, ◌=ₛ◌,
}
use latticeag_gateway.Base.Int.{max_safe}
use latticeag_gateway.Base.Table.{get, put, values, find_value, get-put, get-put_self}
use latticeag_gateway.Protocol.Errors.{RpcError}
use latticeag_gateway.Exec.{Result, ok, err}
use latticeag_gateway.Peers.Ports.{Store, StoredPeer, GrantRecord, grant_by_access_hash}
use latticeag_gateway.Peers.Tokens.{verify_access}
use latticeag_gateway.Peers.Tokens.Access.{access_ok, access_exact}
use latticeag_gateway.Peers.Proofs.{
  Context, Request, ProofStore, verify_request_proof, verify_freshness, assert_nonce_unused,
  assert_signature, nonce_key, nonce_bytes, body_of, is_body, earlier, is_used, NoncePorts,
  in_memory, store_backed, proof_ttl_ms, proof_issued_skew_ms,
}

-- The conditions on a request of a grant.
pub record Proves (c : Context) (now : ℕ) (r : Request) (s : ProofStore) (g : GrantRecord)
    (peer : StoredPeer) : Type 0 where
  pub authentic : verify_access c.tokens now r.access s.store ≡ (ok (g, peer), s.store)
  pub issued : (r.proof.issued_ms ≤ max_safe) × (r.proof.issued_ms ≤ now + proof_issued_skew_ms)
  pub window :
      (r.proof.issued_ms < r.proof.expires_ms)
      × (r.proof.expires_ms ≤ r.proof.issued_ms + proof_ttl_ms)
  pub in_time :
      (r.proof.expires_ms ≤ max_safe)
      × (now < r.proof.expires_ms)
      × (r.proof.expires_ms ≤ g.access_expires_ms)
  pub epoch : (r.proof.epoch ≡ c.epoch) × (r.proof.epoch ≡ g.epoch)
  pub nonce : c.b64u_length r.proof.nonce ≡ some nonce_bytes
  pub unused :
      is_used c.nonce_ports now (get (nonce_key g.access_hash r.proof.nonce) s.nonces) ≡ false
  pub body : is_body (body_of c g r) ≡ true
  pub signed : c.verify_request (body_of c g r) r.proof.proof peer.key_material.public ≡ true

module _ (c : Context) (now : ℕ) (r : Request) (s : ProofStore) (g : GrantRecord)
    (peer : StoredPeer) where
  Proves-done :
      Proves c now r s g peer
      → verify_request_proof c now r s ≡ (
        ok (g, peer),
        record s {
          nonces =
              put
                (nonce_key g.access_hash r.proof.nonce)
                (earlier r.proof.expires_ms g.access_expires_ms)
                s.nonces;
        },
      )
  unfolding verify_request_proof verify_freshness assert_nonce_unused assert_signature
  Proves-done h = ground (
    arith,
    h.authentic,
    h.issued,
    h.window,
    h.in_time,
    h.epoch,
    h.nonce,
    h.unused,
    h.body,
    h.signed,
    eq_iff r.proof.epoch c.epoch,
    eq_iff r.proof.epoch g.epoch,
  )

  Proves-ok :
      verify_access c.tokens now r.access s.store ≡ (ok (g, peer), s.store)
      → (verify_request_proof c now r s).0 ≡ ok (g, peer)
      → Proves c now r s g peer
  unfolding verify_request_proof verify_freshness assert_nonce_unused assert_signature
  Proves-ok a h = record {
    authentic = a;
    issued = ground (arith, a, h, eq_iff r.proof.epoch c.epoch, eq_iff r.proof.epoch g.epoch);
    window = ground (arith, a, h, eq_iff r.proof.epoch c.epoch, eq_iff r.proof.epoch g.epoch);
    in_time = ground (arith, a, h, eq_iff r.proof.epoch c.epoch, eq_iff r.proof.epoch g.epoch);
    epoch = ground (arith, a, h, eq_iff r.proof.epoch c.epoch, eq_iff r.proof.epoch g.epoch);
    nonce = ground (arith, a, h, eq_iff r.proof.epoch c.epoch, eq_iff r.proof.epoch g.epoch);
    unused = ground (arith, a, h, eq_iff r.proof.epoch c.epoch, eq_iff r.proof.epoch g.epoch);
    body = ground (arith, a, h, eq_iff r.proof.epoch c.epoch, eq_iff r.proof.epoch g.epoch);
    signed = ground (arith, a, h, eq_iff r.proof.epoch c.epoch, eq_iff r.proof.epoch g.epoch);
  }

  access_same : (verify_access c.tokens now r.access s.store).1 ≡ s.store
  unfolding verify_access
  access_same = ground arith

  access_of :
      (verify_request_proof c now r s).0 ≡ ok (g, peer)
      → (verify_access c.tokens now r.access s.store).0 ≡ ok (g, peer)
  unfolding verify_request_proof
  access_of h = ground (arith, h)

  pub proof_exact : ((verify_request_proof c now r s).0 ≡ ok (g, peer)) ↔ Proves c now r s g peer
  proof_exact = (
    (λ h.
        let a : verify_access c.tokens now r.access s.store ≡ (ok (g, peer), s.store) =
          (access_exact c.tokens now r.access s.store g peer).1
            (access_ok c.tokens now r.access s.store g peer (access_of h)) in
        Proves-ok a h),
    λ h. ap (λ o. o.0) (Proves-done h),
  )

module _ (c : Context) (now : ℕ) (r : Request) (s : ProofStore) where
  -- What a refused request leaves of the nonces.
  refused_nonces :
      (x : RpcError)
      → (verify_request_proof c now r s).0 ≡ err x
      → (verify_request_proof c now r s).1.nonces ≡ s.nonces
  unfolding verify_request_proof verify_freshness assert_nonce_unused assert_signature
  refused_nonces x h = ground (arith, h)

-- The nonce is written with that expiry.
abbrev IsWritten : String → ℕ → ProofStore → Type 0
IsWritten k expires_ms s = get k s.nonces ≡ some expires_ms

-- Both ports know a nonce before its expiry.
known_before :
    (ports : NoncePorts) (now n : ℕ) (o : Option ℕ)
    → o ≡ some n
    → now < n
    → is_used ports now o ≡ true
known_before in_memory now n o e h = ap (is_used in_memory now) e
known_before store_backed now n o e h = ap (is_used store_backed now) e ∙ ground (arith, h)

accepted_fresh :
    (c : Context) (now : ℕ) (r : Request) (s : ProofStore) (g : GrantRecord) (peer : StoredPeer)
    (n : ℕ)
    → Proves c now r s g peer
    → now < n
    → get (nonce_key g.access_hash r.proof.nonce) s.nonces ≡ some n
    → true ≡ false
accepted_fresh c now r s g peer n h before e =
    sym (
      known_before c.nonce_ports now n (get (nonce_key g.access_hash r.proof.nonce) s.nonces) e
        before)
    ∙ h.unused

IsWritten-verify :
    (c : Context) (now : ℕ) (r : Request) (s : ProofStore) (k : String) (n : ℕ)
    → now < n
    → IsWritten k n s
    → IsWritten k n (verify_request_proof c now r s).1
IsWritten-verify c now r s k n before h = go (verify_request_proof c now r s).0 refl
  where
    go :
        (o : Result (GrantRecord × StoredPeer))
        → (verify_request_proof c now r s).0 ≡ o
        → IsWritten k n (verify_request_proof c now r s).1
    go (err x) e = rw (refused_nonces c now r s x e) h
    go (ok (g, peer)) e =
        let proves = (proof_exact c now r s g peer).0 e in
        let key : String = nonce_key g.access_hash r.proof.nonce in
        let v : ℕ = earlier r.proof.expires_ms g.access_expires_ms in
        elim (Bool-cases (key =ₛ k)) [
          | inl same ↦
              let own : key ≡ k = (eq_iff key k).0 same in
              let never : true ≡ false =
                accepted_fresh c now r s g peer n proves before
                  (ap (λ j. get j s.nonces) own ∙ h) in
              absurd (ground (arith, never))
          | inr differs ↦
              rw (Proves-done c now r s g peer proves, get-put key k v s.nonces, differs) h
        ]

-- The requests of any peers, and what else the daemon does to the rows of the peers.
pub data Event : Type 0 where
  asks : Context → ℕ → Request → Event
  others : Store → Event

unfoldable pub step : Event → ProofStore → ProofStore
step (asks c now r) s = (verify_request_proof c now r s).1
step (others t) s = record s { store = t }

unfoldable pub run : List Event → ProofStore → ProofStore
unfolding step
run [] s = s
run (x ∷ xs) s = run xs (step x s)

-- The requests are asked before a time.
abbrev pub IsBefore : ℕ → Event → Type 0
IsBefore n (asks c now r) = now < n
IsBefore n (others t) = Unit {0}

IsWritten-run :
    (xs : List Event) (s : ProofStore) (k : String) (n : ℕ)
    → All (IsBefore n) xs
    → IsWritten k n s
    → IsWritten k n (run xs s)
unfolding run step
IsWritten-run [] s k n before h = h
IsWritten-run (asks c now r ∷ xs) s k n (first, rest) h =
    IsWritten-run xs (verify_request_proof c now r s).1 k n rest
      (IsWritten-verify c now r s k n first h)
IsWritten-run (others t ∷ xs) s k n (first, rest) h =
    IsWritten-run xs (record s { store = t }) k n rest h

hash_of :
    (h : String) (s : Store) (g : GrantRecord)
    → grant_by_access_hash h s ≡ some g
    → g.access_hash ≡ h
unfolding grant_by_access_hash find_value
hash_of h s g found =
    (eq_iff g.access_hash h).0 (find-holds (λ g. g.access_hash =ₛ h) (values s.grants) g found)

own_hash :
    (c : Context) (now : ℕ) (r : Request) (s : ProofStore) (g : GrantRecord) (peer : StoredPeer)
    → Proves c now r s g peer
    → g.access_hash ≡ c.tokens.sha256 r.access
own_hash c now r s g peer h =
    hash_of (c.tokens.sha256 r.access) s.store g
      ((access_exact c.tokens now r.access s.store g peer).0 h.authentic).grant

accepted-IsWritten :
    (c : Context) (now : ℕ) (r : Request) (s : ProofStore) (g : GrantRecord) (peer : StoredPeer)
    → Proves c now r s g peer
    → IsWritten
        (nonce_key (c.tokens.sha256 r.access) r.proof.nonce)
        r.proof.expires_ms
        (verify_request_proof c now r s).1
accepted-IsWritten c now r s g peer h =
    let own = own_hash c now r s g peer h in
    let n : ℕ = earlier r.proof.expires_ms g.access_expires_ms in
    let until : n ≡ r.proof.expires_ms = ground (arith, h.in_time.2) in
    rw (Proves-done c now r s g peer h, own)
      (get-put_self (nonce_key (c.tokens.sha256 r.access) r.proof.nonce) n s.nonces ∙ ap some until)

-- Once a request was accepted, every request with an access token of the same hash and the same nonce is
-- refused until the proof of the first one expires, with both ports that keep nonces: whatever requests of
-- that time come in between, whatever happens to the rows of the peers, and in whatever context it is asked.
pub nonce_once :
    (c : Context) (now : ℕ) (r : Request) (s : ProofStore) (g : GrantRecord) (peer : StoredPeer)
    (xs : List Event) (c' : Context) (now' : ℕ) (r' : Request)
    → (verify_request_proof c now r s).0 ≡ ok (g, peer)
    → All (IsBefore r.proof.expires_ms) xs
    → now' < r.proof.expires_ms
    → c'.tokens.sha256 r'.access ≡ c.tokens.sha256 r.access
    → r'.proof.nonce ≡ r.proof.nonce
    → (x : RpcError) × ((verify_request_proof c' now' r'
          (run xs (verify_request_proof c now r s).1)).0
        ≡ err x)
nonce_once c now r s g peer xs c' now' r' accepted between before same_token same_nonce =
    go (verify_request_proof c' now' r' t).0 refl
  where
    t : ProofStore
    t = run xs (verify_request_proof c now r s).1

    written : IsWritten (nonce_key (c.tokens.sha256 r.access) r.proof.nonce) r.proof.expires_ms t
    written =
        IsWritten-run xs (verify_request_proof c now r s).1
          (nonce_key (c.tokens.sha256 r.access) r.proof.nonce) r.proof.expires_ms between
          (accepted-IsWritten c now r s g peer ((proof_exact c now r s g peer).0 accepted))

    go :
        (o : Result (GrantRecord × StoredPeer))
        → (verify_request_proof c' now' r' t).0 ≡ o
        → (x : RpcError) × ((verify_request_proof c' now' r' t).0 ≡ err x)
    go (err x) e = (x, e)
    go (ok (g', peer')) e =
        let h = (proof_exact c' now' r' t g' peer').0 e in
        let own : g'.access_hash ≡ c.tokens.sha256 r.access =
          own_hash c' now' r' t g' peer' h ∙ same_token in
        let key : nonce_key g'.access_hash r'.proof.nonce
            ≡ nonce_key (c.tokens.sha256 r.access) r.proof.nonce =
          ap (λ a. nonce_key a r'.proof.nonce) own
          ∙ ap (nonce_key (c.tokens.sha256 r.access)) same_nonce in
        let never : true ≡ false =
          accepted_fresh c' now' r' t g' peer' r.proof.expires_ms h before
            (ap (λ k. get k t.nonces) key ∙ written) in
        absurd (ground (arith, never))
