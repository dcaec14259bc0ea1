-- ===== src/Daemon/Auth/Memory.antt =====
-- packages/gateway-daemon/src/rpc/auth.ts: InMemoryPeerTokenStore remembers the nonces that it prunes not yet.
use latticeag_gateway.Base.{
  ℕ, ◌<◌, String, true, false, ◌≡◌, refl, inl, inr, Option, none, some, [], ◌∷◌, arith, eq_iff,
  ◌=ₛ◌, Bool-cases,
}
use latticeag_gateway.Base.Table.{Table, get, get-put, get-put_self}
use latticeag_gateway.Daemon.Auth.Tokens.{
  unexpired, or_empty, note_nonce, nonce_seen, in_memory, Remembers,
}

get-unexpired :
    (now : ℕ) (n : String) (u : ℕ) (t : Table ℕ)
    → now < u
    → get n t ≡ some u
    → get n (unexpired now t) ≡ some u
unfolding unexpired get
get-unexpired now n u [] early h = h
get-unexpired now n u ((m, v) ∷ t) early h =
    ground (arith, early, h, get-unexpired now n u t early, eq_iff m n)

noted :
    (n : String) (u : ℕ) (o : Option ℕ) (t : Table ℕ)
    → (note_nonce n u o t).0 ≡ false
    → get n (note_nonce n u o t).1 ≡ some u
unfolding note_nonce
noted n u none t h = get-put_self n u t
noted n u (some v) t h = absurd (ground arith)

noted_keeps :
    (m n : String) (u v : ℕ) (o : Option ℕ) (t : Table ℕ)
    → get m t ≡ o
    → get n t ≡ some u
    → get n (note_nonce m v o t).1 ≡ some u
unfolding note_nonce
noted_keeps m n u v none t at h = ground (arith, at, h, get-put m n v t, eq_iff m n)
noted_keeps m n u v (some x) t at h = h

noted_old :
    (n : String) (u v : ℕ) (o : Option ℕ) (t : Table ℕ) → o ≡ some u → (note_nonce n v o t).0 ≡ true
unfolding note_nonce
noted_old n u v none t h = absurd (ground arith)
noted_old n u v (some x) t h = refl

abbrev Stored : String → String → ℕ → Table (Table ℕ) → Type 0
Stored p n u s = get n (or_empty (get p s)) ≡ some u

memory-records :
    (now : ℕ) (p n : String) (u : ℕ) (s : Table (Table ℕ))
    → (nonce_seen now p n u s).0 ≡ false
    → Stored p n u (nonce_seen now p n u s).1
unfolding nonce_seen
memory-records now p n u s h =
    let set : Table ℕ = unexpired now (or_empty (get p s)) in
    rw (get-put_self p (note_nonce n u (get n set) set).1 s) (noted n u (get n set) set h)

memory-keeps :
    (now : ℕ) (q m : String) (v : ℕ) (p n : String) (u : ℕ) (s : Table (Table ℕ))
    → now < u
    → Stored p n u s
    → Stored p n u (nonce_seen now q m v s).1
unfolding nonce_seen
memory-keeps now q m v p n u s early h = elim (Bool-cases (q =ₛ p)) [
  | inl same ↦
      let e : q ≡ p = (eq_iff q p).0 same in
      let set : Table ℕ = unexpired now (or_empty (get q s)) in
      let kept : get n set ≡ some u = get-unexpired now n u (or_empty (get q s)) early (rw e h) in
      rw (get-put q p (note_nonce m v (get m set) set).1 s, same)
        (noted_keeps m n u v (get m set) set refl kept)
  | inr differs ↦
      let set : Table ℕ = unexpired now (or_empty (get q s)) in
      rw (get-put q p (note_nonce m v (get m set) set).1 s, differs) h
]

memory-refuses :
    (now : ℕ) (p n : String) (v u : ℕ) (s : Table (Table ℕ))
    → now < u
    → Stored p n u s
    → (nonce_seen now p n v s).0 ≡ true
unfolding nonce_seen
memory-refuses now p n v u s early h =
    let set : Table ℕ = unexpired now (or_empty (get p s)) in
    noted_old n u v (get n set) set (get-unexpired now n u (or_empty (get p s)) early h)

pub memory-Remembers : Remembers in_memory
unfolding in_memory
memory-Remembers = record {
  Holds = Stored;
  records = memory-records;
  keeps = memory-keeps;
  refuses = memory-refuses;
}
