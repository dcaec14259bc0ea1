-- ===== src/Daemon/Sessions/Runs.antt =====
-- packages/gateway-daemon/src/rpc/auth.ts: sequences of calls on the sessions, and the one use of a bootstrap.
use latticeag_gateway.Base.{
  ℕ, ◌+◌, String, ◌≡◌, refl, Option, none, some, List, [], ◌∷◌, arith, eq_iff, eq_refl, All,
}
use latticeag_gateway.Base.Table.{get, get-put, get-remove}
use latticeag_gateway.Daemon.Sessions.{
  SessionRole, SessionRecord, BootstrapRecord, SessionStore, create_bootstrap, exchange,
  open_session, resolve, slide, revoke, mark_revoked, bootstrap_ms,
}

-- A call with the clock and what it draws: `exchanges` takes the new session's id, its csrf and the bootstrap.
pub data Event : Type 0 where
  creates : ℕ → String → SessionRole → Event
  exchanges : ℕ → String → String → String → Event
  resolves : ℕ → String → Event
  revokes : String → Event

unfoldable pub step : Event → SessionStore → SessionStore
step (creates now b role) s = (create_bootstrap now b role s).1
step (exchanges now id csrf b) s = (exchange now id csrf b s).1
step (resolves now id) s = (resolve now id s).1
step (revokes id) s = (revoke id s).1

unfoldable pub run : List Event → SessionStore → SessionStore
unfolding step
run [] s = s
run (e ∷ es) s = run es (step e s)

-- The call does not draw the bootstrap again.
abbrev pub Redraws : String → Event → Type 0
Redraws b (creates now c role) = c ≡ b
Redraws b _ = ⊥

gone-open :
    (b : String) (now : ℕ) (id csrf c : String) (o : Option BootstrapRecord) (s : SessionStore)
    → get b s.bootstraps ≡ none
    → get b (open_session now id csrf c o s).1.bootstraps ≡ none
unfolding open_session
gone-open b now id csrf c none s h = h
gone-open b now id csrf c (some r) s h = ground (arith, get-remove c b s.bootstraps)

slide-bootstraps :
    (now : ℕ) (id : String) (o : Option SessionRecord) (s : SessionStore)
    → (slide now id o s).1.bootstraps ≡ s.bootstraps
unfolding slide
slide-bootstraps now id none s = refl
slide-bootstraps now id (some r) s = ground arith

mark-bootstraps :
    (id : String) (o : Option SessionRecord) (s : SessionStore)
    → (mark_revoked id o s).1.bootstraps ≡ s.bootstraps
unfolding mark_revoked
mark-bootstraps id none s = refl
mark-bootstraps id (some r) s = refl

gone-step :
    (b : String) (e : Event) (s : SessionStore)
    → (Redraws b e → ⊥)
    → get b s.bootstraps ≡ none
    → get b (step e s).bootstraps ≡ none
unfolding step create_bootstrap exchange resolve revoke
gone-step b (creates now c role) s new h =
    rw (get-put c b (record { role = role; expires_ms = now + bootstrap_ms }) s.bootstraps)
      (ground (arith, eq_iff c b))
gone-step b (exchanges now id csrf c) s new h = gone-open b now id csrf c (get c s.bootstraps) s h
gone-step b (resolves now id) s new h = rw (slide-bootstraps now id (get id s.sessions) s) h
gone-step b (revokes id) s new h = rw (mark-bootstraps id (get id s.sessions) s) h

gone-run :
    (b : String) (es : List Event) (s : SessionStore)
    → All (λ e. Redraws b e → ⊥) es
    → get b s.bootstraps ≡ none
    → get b (run es s).bootstraps ≡ none
unfolding run
gone-run b [] s new h = h
gone-run b (e ∷ es) s new h = gone-run b es (step e s) new.1 (gone-step b e s new.0 h)

open-gone :
    (now : ℕ) (id csrf b : String) (o : Option BootstrapRecord) (s : SessionStore)
    → get b s.bootstraps ≡ o
    → get b (open_session now id csrf b o s).1.bootstraps ≡ none
unfolding open_session
open-gone now id csrf b none s e = e
open-gone now id csrf b (some r) s e = ground (arith, get-remove b b s.bootstraps, eq_refl b)

-- A bootstrap is exchanged at most once: whatever the first exchange gave, after any further calls that do
-- not draw the same bootstrap anew, an exchange of it opens no session, at any time.
pub bootstrap_once :
    (b : String) (now : ℕ) (id csrf : String) (s : SessionStore) (es : List Event) (now' : ℕ)
    (id' csrf' : String)
    → All (λ e. Redraws b e → ⊥) es
    → (exchange now' id' csrf' b (run es (exchange now id csrf b s).1)).0 ≡ none
unfolding exchange open_session
bootstrap_once b now id csrf s es now' id' csrf' new =
    rw
      (gone-run b es (open_session now id csrf b (get b s.bootstraps) s).1 new
        (open-gone now id csrf b (get b s.bootstraps) s refl))
      refl
