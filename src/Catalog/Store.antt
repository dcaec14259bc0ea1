-- ===== src/Catalog/Store.antt =====
-- packages/core/src/v2/catalog/index.ts: CatalogStore
-- and its refreshes of the cached index.
-- The clock is read once for a call.
pub mod Register
pub mod Authorize
pub mod Installs
use Prim.Native.String.{◌++◌ as ◌<>◌}
use latticeag_gateway.Base.{
  ℕ, String, Bool, true, false, not, ◌&&◌, ◌||◌, Option, none, some, List, [], ◌∷◌, ◌++◌, leb, ltb,
  ◌==◌, ◌=ₛ◌, if◌then◌else◌, includes, length, find,
}
use latticeag_gateway.Protocol.Errors.{
  policy_denied, catalog_rollback, revision_conflict, not_found, trust_expired, at,
}
use latticeag_gateway.Protocol.Lexical.{behind}
use latticeag_gateway.Approvals.Refs.{NativeRef}
use latticeag_gateway.Exec.{
  Result, ok, err, or_err, Exec, pure, throw, lift, ◌>>=◌, ◌>>◌, throw_if, modify,
}
use latticeag_gateway.Exec.Checks.{require}
use latticeag_gateway.Exec.Checks
use latticeag_gateway.Catalog.{
  CatalogIndex, CatalogEntry, CatalogPin, CatalogTrust, CachedIndex, IndexFetch, Highest,
  Equivocation, Ports, Freshness, current, offline_pinned, catalog_fresh,
}
use latticeag_gateway.Catalog.Verify.{verify_index}

-- The arguments of `refresh`, with what the offline snapshot and the fetch give.
pub record RefreshOptions : Type 0 where
  pub provided : Option IndexFetch
  pub offline : Bool
  pub snapshot : Option IndexFetch
  pub fetched : Result IndexFetch

abbrev pub payload_of : RefreshOptions → Option IndexFetch → Result IndexFetch
payload_of o (some p) = ok p
payload_of o none = if o.offline then or_err (at not_found "offline") o.snapshot else o.fetched

pub record RefreshResult : Type 0 where
  pub revision : ℕ
  pub entries : ℕ
  pub freshness : Freshness

-- A verified index with its text, its digest and its signatures.
abbrev pub candidate : CatalogTrust → IndexFetch → Bool → CatalogIndex × String → CachedIndex
candidate t payload offline (index, raw) = record {
  raw = raw;
  digest = t.sha256 raw;
  signatures = payload.signatures;
  index = index;
  offline = offline;
}

unfoldable pub verified : CatalogTrust → RefreshOptions → Result CachedIndex
verified t o = Checks.◌>>=◌ (payload_of o o.provided) λ payload.
    Checks.◌>>=◌ (verify_index t payload.index payload.signatures)
      λ pair. ok (candidate t payload o.offline pair)

abbrev pub below : ℕ → Option Highest → Bool
below r none = false
below r (some h) = ltb r h.revision

abbrev pub equivocates : CachedIndex → Option Highest → Bool
equivocates c none = false
equivocates c (some h) = c.index.revision == h.revision && not (c.digest =ₛ h.digest)

abbrev pub evidence : CachedIndex → Option Highest → List Equivocation → List Equivocation
evidence c none log = log
evidence c (some h) log =
    log
    ++ (record {
      revision = c.index.revision;
      current = h.digest;
      candidate = c.digest;
      raw = c.raw;
    }
        ∷ [])

abbrev pub raised : CachedIndex → Option Highest → Option Highest
raised c none = some (record { revision = c.index.revision; digest = c.digest })
raised c (some h) =
    if ltb h.revision c.index.revision
    then some (record { revision = c.index.revision; digest = c.digest })
    else some h

abbrev pub later : ℕ → ℕ → ℕ
later a b = if ltb a b then b else a

abbrev pub freshness_of : CatalogTrust → ℕ → CachedIndex → Freshness
freshness_of t now c = if c.offline then offline_pinned else catalog_fresh c.index now t.max_age_s

-- What `refresh` does with a verified index.
unfoldable pub accept : CatalogTrust → ℕ → CachedIndex → Exec Ports RefreshResult
unfolding catalog_fresh
accept t now c s =
    if not (c.index.channel =ₛ t.channel)
    then (err (at policy_denied "channel"), s)
    else if below c.index.revision s.highest
    then (err (at catalog_rollback "revision"), s)
    else if equivocates c s.highest
    then (
      err (at revision_conflict "revision"),
      record s { equivocation_log = evidence c s.highest s.equivocation_log },
    )
    else (
      ok (record {
        revision = c.index.revision;
        entries = length c.index.entries;
        freshness = freshness_of t now c;
      }),
      record s { cache = some c; highest = raised c s.highest; time_high = later s.time_high now },
    )

unfoldable pub accept_verified : CatalogTrust → ℕ → Result CachedIndex → Exec Ports RefreshResult
unfolding accept
accept_verified t now (err e) s = (err e, s)
accept_verified t now (ok c) s = accept t now c s

unfoldable pub refresh : CatalogTrust → ℕ → RefreshOptions → Exec Ports RefreshResult
unfolding accept_verified verified
refresh t now o s = accept_verified t now (verified t o) s

-- `freshness`, `entries` and `indexCommitment`
abbrev fresh_cache : CatalogTrust → ℕ → Option CachedIndex → Option Freshness
fresh_cache t now none = none
fresh_cache t now (some c) = some (freshness_of t now c)

unfoldable pub freshness : CatalogTrust → ℕ → Ports → Option Freshness
unfolding catalog_fresh
freshness t now s = fresh_cache t now s.cache

abbrev cached_entries : Option CachedIndex → List CatalogEntry
cached_entries none = []
cached_entries (some c) = c.index.entries

unfoldable pub entries : Ports → List CatalogEntry
entries s = cached_entries s.cache

abbrev commitment_of : Option CachedIndex → Option String
commitment_of none = none
commitment_of (some c) = some ("sha256:" <> c.digest)

unfoldable pub index_commitment : Ports → Option String
index_commitment s = commitment_of s.cache
