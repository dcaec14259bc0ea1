-- ===== src/Catalog.antt =====
-- packages/core/src/v2/protocol/catalog.ts and catalog/ports.ts: the signed index of products, how fresh it is,
-- and what createMemoryCatalogPorts holds. A revision, which the code keeps as a canonical decimal text, is
-- the natural number that it writes.
pub mod Lexical
pub mod Index
pub mod Verify
pub mod Store
pub mod Service
mod Tests
use latticeag_gateway.Base.{
  ℕ, ◌+◌, ◌*◌, String, Bool, Option, none, some, List, [], ◌∷◌, leb, ltb, if◌then◌else◌, ◌=ₛ◌,
}
use latticeag_gateway.Protocol.Values.{Value}
use latticeag_gateway.Approvals.Refs.{NativeRef, ObjectRef}

pub record Surfaces : Type 0 where
  pub local : String
  pub hosted : Bool
  pub tier : String
  pub entitlement : Option String

pub record CatalogEntry : Type 0 where
  pub slug : String
  pub series : String
  pub version : String
  pub published_ms : ℕ
  pub manifest : ObjectRef
  pub release_signatures : List NativeRef
  pub adapter_status : String
  pub surfaces : Surfaces

-- The field `schema` is the constant "gateway.catalog/1".
pub record CatalogIndex : Type 0 where
  pub revision : ℕ
  pub issued_ms : ℕ
  pub expires_ms : ℕ
  pub channel : String
  pub entries : List CatalogEntry
  pub revocations : List NativeRef

pub record CatalogPin : Type 0 where
  pub slug : String
  pub version : String
  pub digest : String
  pub index : String

-- CATALOG_CHANNELS
abbrev pub catalog_channels : List String
catalog_channels = "stable" ∷ "preview" ∷ []

-- CATALOG_LIMITS
abbrev pub index_bytes : ℕ
index_bytes = 8 * 1024 * 1024

abbrev pub max_entries : ℕ
max_entries = 10000

abbrev pub max_signatures : ℕ
max_signatures = 16

abbrev pub issued_skew_ms : ℕ
issued_skew_ms = 5000

-- CatalogFreshness, and the marker of an offline snapshot.
pub data Freshness : Type 0 where
  current stale trust_expired offline_pinned : Freshness

unfoldable pub catalog_fresh : CatalogIndex → ℕ → ℕ → Freshness
catalog_fresh index now max_age_s =
    if ltb (now + issued_skew_ms) index.issued_ms
    then trust_expired
    else if leb index.expires_ms now
    then trust_expired
    else if leb (index.issued_ms + max_age_s * 1000) now
    then stale
    else current

-- CatalogTrustView. `key_id` is verifySunlightStatementKeyId under the roots of the trust configuration,
-- `canonical` the canonical text of a value in its domain, `sha256` the hash of a text.
pub record CatalogTrust : Type 0 where
  pub key_id : Value → Option String
  pub canonical : Value → Option String
  pub sha256 : String → String
  pub quorum : ℕ
  pub channel : String
  pub strict : Bool
  pub allowlist : List String
  pub max_age_s : ℕ

pub record CachedIndex : Type 0 where
  pub raw : String
  pub digest : String
  pub signatures : List Value
  pub index : CatalogIndex
  pub offline : Bool

pub record IndexFetch : Type 0 where
  pub index : Value
  pub signatures : List Value

pub record Highest : Type 0 where
  pub revision : ℕ
  pub digest : String

pub record Equivocation : Type 0 where
  pub revision : ℕ
  pub current : String
  pub candidate : String
  pub raw : String

-- The rows of createMemoryCatalogPorts.
pub record Ports : Type 0 where
  pub cache : Option CachedIndex
  pub highest : Option Highest
  pub equivocation_log : List Equivocation
  pub pin_list : List CatalogPin
  pub pin_rev : ℕ
  pub time_high : ℕ
