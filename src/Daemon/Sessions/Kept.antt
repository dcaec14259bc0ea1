-- ===== src/Daemon/Sessions/Kept.antt =====
-- packages/gateway-daemon/src/rpc/auth.ts: what no call changes in a session.
use latticeag_gateway.Base.{
  ℕ, String, true, ◌≡◌, refl, ◌∙◌, inl, inr, Option, none, some, List, [], ◌∷◌, arith, eq_iff, leb,
  ◌=ₛ◌, Bool-cases, All,
}
use latticeag_gateway.Base.Table.{get, put, remove, get-put}
use latticeag_gateway.Daemon.Sessions.{
  SessionRecord, BootstrapRecord, SessionStore, create_bootstrap, exchange, open_session, resolve,
  slide, revoke, mark_revoked, is_over, new_session,
}
use latticeag_gateway.Daemon.Sessions.Runs.{Event, creates, exchanges, resolves, revokes, step, run}

-- What never changes in a session, and that a revocation stays.
pub record Later (r r' : SessionRecord) : Type 0 where
  pub role : r'.role ≡ r.role
  pub csrf : r'.csrf ≡ r.csrf
  pub absolute : r'.absolute_expires_ms ≡ r.absolute_expires_ms
  pub idle : r'.idle_ms ≡ r.idle_ms
  pub revoked : r.revoked ≡ true → r'.revoked ≡ true

Later-refl : (r : SessionRecord) → Later r r
Later-refl r = record { role = refl; csrf = refl; absolute = refl; idle = refl; revoked = λ h. h }

Later-trans : (a b c : SessionRecord) → Later a b → Later b c → Later a c
Later-trans a b c h k = record {
  role = k.role ∙ h.role;
  csrf = k.csrf ∙ h.csrf;
  absolute = k.absolute ∙ h.absolute;
  idle = k.idle ∙ h.idle;
  revoked = λ e. k.revoked (h.revoked e);
}

abbrev pub LivesOn : String → SessionRecord → SessionStore → Type 0
LivesOn id r s = (r' : SessionRecord) × (get id s.sessions ≡ some r') × Later r r'

-- The call does not draw the session's id again.
abbrev pub Reuses : String → Event → Type 0
Reuses id (exchanges now i csrf b) = i ≡ id
Reuses id _ = ⊥

lives-put :
    (id j : String) (r q : SessionRecord) (s : SessionStore)
    → get id s.sessions ≡ some r
    → (j ≡ id → Later r q)
    → LivesOn id r (record s { sessions = put j q s.sessions })
lives-put id j r q s e h = elim (Bool-cases (j =ₛ id)) [
  | inl same ↦ (q, rw (get-put j id q s.sessions, same) refl, h ((eq_iff j id).0 same))
  | inr differs ↦ (r, rw (get-put j id q s.sessions, differs) e, Later-refl r)
]

lives-open :
    (id : String) (r : SessionRecord) (now : ℕ) (i csrf b : String) (o : Option BootstrapRecord)
    (s : SessionStore)
    → (i ≡ id → ⊥)
    → get id s.sessions ≡ some r
    → LivesOn id r (open_session now i csrf b o s).1
unfolding open_session
lives-open id r now i csrf b none s new e = (r, e, Later-refl r)
lives-open id r now i csrf b (some x) s new e = elim (Bool-cases (leb x.expires_ms now)) [
  | inl late ↦ (r, rw late e, Later-refl r)
  | inr in_time ↦
      let t : SessionStore = record s { bootstraps = remove b s.bootstraps } in
      rw in_time (lives-put id i r (new_session now i csrf x.role) t e (λ same. absurd (new same)))
]

lives-slide :
    (id : String) (r : SessionRecord) (now : ℕ) (j : String) (o : Option SessionRecord)
    (s : SessionStore)
    → get j s.sessions ≡ o
    → get id s.sessions ≡ some r
    → LivesOn id r (slide now j o s).1
unfolding slide
lives-slide id r now j none s at e = (r, e, Later-refl r)
lives-slide id r now j (some q) s at e = elim (Bool-cases (is_over now q)) [
  | inl over ↦ (r, rw over e, Later-refl r)
  | inr live ↦ rw live (
      lives-put id j r (record q { last_seen_ms = now }) s e
        (λ same.
          let own : q ≡ r = ground (arith, at, e, same) in
          rw own
            (record { role = refl; csrf = refl; absolute = refl; idle = refl; revoked = λ h. h })))
]

lives-mark :
    (id : String) (r : SessionRecord) (j : String) (o : Option SessionRecord) (s : SessionStore)
    → get j s.sessions ≡ o
    → get id s.sessions ≡ some r
    → LivesOn id r (mark_revoked j o s).1
unfolding mark_revoked
lives-mark id r j none s at e = (r, e, Later-refl r)
lives-mark id r j (some q) s at e =
    lives-put id j r (record q { revoked = true }) s e
      (λ same.
        let own : q ≡ r = ground (arith, at, e, same) in
        rw own
          (record { role = refl; csrf = refl; absolute = refl; idle = refl; revoked = λ h. refl }))

pub lives-step :
    (id : String) (r : SessionRecord) (e : Event) (s : SessionStore)
    → (Reuses id e → ⊥)
    → get id s.sessions ≡ some r
    → LivesOn id r (step e s)
unfolding step create_bootstrap exchange resolve revoke
lives-step id r (creates now b role) s new h = (r, h, Later-refl r)
lives-step id r (exchanges now i csrf b) s new h =
    lives-open id r now i csrf b (get b s.bootstraps) s new h
lives-step id r (resolves now j) s new h = lives-slide id r now j (get j s.sessions) s refl h
lives-step id r (revokes j) s new h = lives-mark id r j (get j s.sessions) s refl h

pub lives-run :
    (id : String) (r : SessionRecord) (es : List Event) (s : SessionStore)
    → All (λ e. Reuses id e → ⊥) es
    → get id s.sessions ≡ some r
    → LivesOn id r (run es s)
unfolding run
lives-run id r [] s new h = (r, h, Later-refl r)
lives-run id r (e ∷ es) s new h =
    let (q, at, later) = lives-step id r e s new.0 h in
    let (p, found, on) = lives-run id q es (step e s) new.1 at in
    (p, found, Later-trans r q p later on)
