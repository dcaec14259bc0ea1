-- ===== src/Daemon/Sessions/Ends.antt =====
-- packages/gateway-daemon/src/rpc/auth.ts: how long a session of a browser resolves.
use latticeag_gateway.Base.{
  ℕ, ◌+◌, ◌<◌, String, Bool, true, false, ◌≡◌, refl, ◌∙◌, ap, inl, inr, ◌⊎◌, Option, none, some,
  List, [], ◌∷◌, arith, eq_iff, subst, leb, ◌=ₛ◌, any, Bool-cases, All,
}
use latticeag_gateway.Base.Table.{get, get-put_self}
use latticeag_gateway.Daemon.Sessions.{
  SessionRecord, BootstrapRecord, SessionStore, exchange, open_session, resolve, slide, revoke,
  mark_revoked, is_over, new_session, absolute_ms,
}
use latticeag_gateway.Daemon.Sessions.Runs.{Event, creates, exchanges, resolves, revokes, step, run}
use latticeag_gateway.Daemon.Sessions.Kept.{Reuses, lives-step, lives-run}

-- The call revokes the session.
abbrev pub ends : String → Event → Bool
ends id (revokes j) = j =ₛ id
ends id _ = false

marked :
    (id : String) (o : Option SessionRecord) (s : SessionStore) (r : SessionRecord)
    → o ≡ some r
    → get id (mark_revoked id o s).1.sessions ≡ some (record r { revoked = true })
unfolding mark_revoked
marked id none s r e = absurd (ground arith)
marked id (some q) s r e =
    let own : q ≡ r = ground arith in
    rw own (get-put_self id (record r { revoked = true }) s.sessions)

ended-step :
    (id : String) (r : SessionRecord) (e : Event) (s : SessionStore)
    → ends id e ≡ true
    → get id s.sessions ≡ some r
    → (q : SessionRecord) × (get id (step e s).sessions ≡ some q) × (q.revoked ≡ true)
unfolding step revoke
ended-step id r (revokes j) s end h =
    let same : j ≡ id = (eq_iff j id).0 end in
    let at : get j s.sessions ≡ some r = rw same h in
    (
      record r { revoked = true },
      subst
          (λ i.
            get i (mark_revoked j (get j s.sessions) s).1.sessions
            ≡ some (record r { revoked = true }))
          same (marked j (get j s.sessions) s r at),
      refl,
    )
ended-step id r (creates now b role) s end h = absurd (ground arith)
ended-step id r (exchanges now i csrf b) s end h = absurd (ground arith)
ended-step id r (resolves now j) s end h = absurd (ground arith)

ended-run :
    (id : String) (r : SessionRecord) (es : List Event) (s : SessionStore)
    → All (λ e. Reuses id e → ⊥) es
    → any (ends id) es ≡ true
    → get id s.sessions ≡ some r
    → (q : SessionRecord) × (get id (run es s).sessions ≡ some q) × (q.revoked ≡ true)
unfolding run
ended-run id r [] s new end h = absurd (ground arith)
ended-run id r (e ∷ es) s new end h = elim (Bool-cases (ends id e)) [
  | inl now ↦
      let (q, at, over) = ended-step id r e s now h in
      let (p, found, later) = lives-run id q es (step e s) new.1 at in
      (p, found, later.revoked over)
  | inr after ↦
      let (q, at, later) = lives-step id r e s new.0 h in
      ended-run id q es (step e s) new.1 (ground (arith, end, after)) at
]

resolved_lem :
    (now : ℕ) (id : String) (q r' : SessionRecord) (s : SessionStore)
    → get id s.sessions ≡ some q
    → (resolve now id s).0 ≡ some r'
    → (is_over now q ≡ false) × (r' ≡ record q { last_seen_ms = now })
unfolding resolve slide
resolved_lem now id q r' s at h = elim (Bool-cases (is_over now q)) [
  | inl over ↦ absurd (ground (arith, at, h, over))
  | inr live ↦ (live, ground (arith, at, h, live))
]

opened :
    (t : ℕ) (id csrf b : String) (o : Option BootstrapRecord) (s : SessionStore) (r : SessionRecord)
    → (open_session t id csrf b o s).0 ≡ some r
    → (get id (open_session t id csrf b o s).1.sessions ≡ some r)
      × (r.absolute_expires_ms ≡ t + absolute_ms r.role)
unfolding open_session
opened t id csrf b none s r h = absurd (ground arith)
opened t id csrf b (some x) s r h = elim (Bool-cases (leb x.expires_ms t)) [
  | inl late ↦ absurd (ground (arith, h, late))
  | inr in_time ↦
      let own : new_session t id csrf x.role ≡ r = ground (arith, h, in_time) in
      rw (in_time, ← own) (get-put_self id (new_session t id csrf x.role) s.sessions, refl)
]

-- A session that an exchange opened resolves, after any further calls that do not draw its id again, only
-- with its role and csrf, only before its 8 hours (viewer) or 10 minutes (operator) from the exchange on
-- are over, whatever was resolved meanwhile, and only if none of the calls revoked it.
pub session_ends :
    (t : ℕ) (id csrf b : String) (s : SessionStore) (r : SessionRecord) (es : List Event) (now : ℕ)
    (r' : SessionRecord)
    → (exchange t id csrf b s).0 ≡ some r
    → All (λ e. Reuses id e → ⊥) es
    → (resolve now id (run es (exchange t id csrf b s).1)).0 ≡ some r'
    → (r'.role ≡ r.role)
      × (r'.csrf ≡ r.csrf)
      × (now < t + absolute_ms r.role)
      × (any (ends id) es ≡ false)
unfolding exchange
session_ends t id csrf b s r es now r' h new found =
    let s1 : SessionStore = (open_session t id csrf b (get b s.bootstraps) s).1 in
    let (at, expiry) = opened t id csrf b (get b s.bootstraps) s r h in
    let (q, kept, later) = lives-run id r es s1 new at in
    let (live, same) = resolved_lem now id q r' (run es s1) kept found in
    (
      ap (λ (x : SessionRecord). x.role) same ∙ later.role,
      ap (λ (x : SessionRecord). x.csrf) same ∙ later.csrf,
      ground (arith, live, later.absolute, expiry),
      not_ended (Bool-cases (any (ends id) es)),
    )
  where
    s2 : SessionStore
    s2 = (open_session t id csrf b (get b s.bootstraps) s).1

    not_ended : (any (ends id) es ≡ true) ⊎ (any (ends id) es ≡ false) → any (ends id) es ≡ false
    not_ended (inr kept) = kept
    not_ended (inl end) =
        let at = (opened t id csrf b (get b s.bootstraps) s r h).0 in
        let (p, own, over) = ended-run id r es s2 new end at in
        let live = (resolved_lem now id p r' (run es s2) own found).0 in
        absurd (ground (arith, live, over))
