-- ===== src/Daemon/Sessions.antt =====
-- packages/gateway-daemon/src/rpc/auth.ts: SessionStore, the sessions of browsers and the one-use bootstraps
-- that they come from. `now`, the tokens and the ids that a call draws are its arguments.
pub mod Runs
pub mod Kept
pub mod Ends
use latticeag_gateway.Base.{
  ℕ, ◌+◌, ◌*◌, String, Bool, true, false, not, ◌||◌, Option, none, some, leb, if◌then◌else◌,
}
use latticeag_gateway.Base.Table.{Table, get, put, remove}

pub data SessionRole : Type 0 where
  viewer operator : SessionRole

pub record SessionRecord : Type 0 where
  pub id : String
  pub role : SessionRole
  pub csrf : String
  pub created_ms : ℕ
  pub last_seen_ms : ℕ
  pub absolute_expires_ms : ℕ
  pub idle_ms : ℕ
  pub revoked : Bool

pub record BootstrapRecord : Type 0 where
  pub role : SessionRole
  pub expires_ms : ℕ

pub record SessionStore : Type 0 where
  pub sessions : Table SessionRecord
  pub bootstraps : Table BootstrapRecord

-- SESSION_LIMITS
abbrev pub absolute_ms : SessionRole → ℕ
absolute_ms viewer = 8 * 3600000
absolute_ms operator = 10 * 60000

abbrev pub idle_limit : SessionRole → ℕ
idle_limit viewer = 30 * 60000
idle_limit operator = 5 * 60000

abbrev pub bootstrap_ms : ℕ
bootstrap_ms = 60000

unfoldable pub create_bootstrap :
    ℕ → String → SessionRole → SessionStore → (String × ℕ) × SessionStore
create_bootstrap now bootstrap role s = (
  (bootstrap, now + bootstrap_ms),
  record s {
    bootstraps =
        put bootstrap (record { role = role; expires_ms = now + bootstrap_ms }) s.bootstraps;
  },
)

abbrev live_role : ℕ → Option BootstrapRecord → Option SessionRole
live_role now none = none
live_role now (some b) = if leb b.expires_ms now then none else some b.role

unfoldable pub peek_bootstrap : ℕ → String → SessionStore → Option SessionRole
peek_bootstrap now bootstrap s = live_role now (get bootstrap s.bootstraps)

abbrev pub new_session : ℕ → String → String → SessionRole → SessionRecord
new_session now id csrf role = record {
  id = id;
  role = role;
  csrf = csrf;
  created_ms = now;
  last_seen_ms = now;
  absolute_expires_ms = now + absolute_ms role;
  idle_ms = idle_limit role;
  revoked = false;
}

-- What is left of `exchange` once the bootstrap is found: it is deleted, and a session opened if in time.
unfoldable pub open_session :
    ℕ
    → String
    → String
    → String
    → Option BootstrapRecord
    → SessionStore
    → Option SessionRecord × SessionStore
open_session now id csrf bootstrap none s = (none, s)
open_session now id csrf bootstrap (some b) s =
    let t : SessionStore = record s { bootstraps = remove bootstrap s.bootstraps } in
    if leb b.expires_ms now then (none, t) else (
      some (new_session now id csrf b.role),
      record t { sessions = put id (new_session now id csrf b.role) t.sessions },
    )

unfoldable pub exchange :
    ℕ → String → String → String → SessionStore → Option SessionRecord × SessionStore
unfolding open_session
exchange now id csrf bootstrap s = open_session now id csrf bootstrap (get bootstrap s.bootstraps) s

-- The test that `resolve` and `peek` share.
abbrev pub is_over : ℕ → SessionRecord → Bool
is_over now s = s.revoked || leb s.absolute_expires_ms now || leb (s.last_seen_ms + s.idle_ms) now

unfoldable pub slide :
    ℕ → String → Option SessionRecord → SessionStore → Option SessionRecord × SessionStore
slide now id none s = (none, s)
slide now id (some r) s = if is_over now r then (none, s) else (
  some (record r { last_seen_ms = now }),
  record s { sessions = put id (record r { last_seen_ms = now }) s.sessions },
)

unfoldable pub resolve : ℕ → String → SessionStore → Option SessionRecord × SessionStore
unfolding slide
resolve now id s = slide now id (get id s.sessions) s

abbrev pub unless_over : ℕ → Option SessionRecord → Option SessionRecord
unless_over now none = none
unless_over now (some r) = if is_over now r then none else some r

unfoldable pub peek : ℕ → String → SessionStore → Option SessionRecord
peek now id s = unless_over now (get id s.sessions)

unfoldable pub mark_revoked : String → Option SessionRecord → SessionStore → Bool × SessionStore
mark_revoked id none s = (false, s)
mark_revoked id (some r) s =
    (true, record s { sessions = put id (record r { revoked = true }) s.sessions })

unfoldable pub revoke : String → SessionStore → Bool × SessionStore
unfolding mark_revoked
revoke id s = mark_revoked id (get id s.sessions) s
