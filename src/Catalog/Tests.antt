-- ===== src/Catalog/Tests.antt =====
-- The catalog at concrete inputs: an index with two signatures, its refresh, an install and a pin.
use latticeag_gateway.Base.{String, false, ◌≡◌, ◌↔◌, refl, Option, none, some, List, [], ◌∷◌, ◌++◌}
use latticeag_gateway.Base.Int.{pos}
use latticeag_gateway.Protocol.Errors.{revision_conflict, at}
use latticeag_gateway.Protocol.Lexical.{is_count, decimal, is_hash64}
use latticeag_gateway.Protocol.Values.{
  Value, int, bool, null, str, obj, arr, end, field, nil, cons, as_object, string_at,
}
use latticeag_gateway.Exec.{ok, err}
use latticeag_gateway.Catalog.{CatalogIndex, CatalogTrust, CatalogPin, CachedIndex, Ports, current}
use latticeag_gateway.Catalog.Index.{
  read_items, read_entry, read_native_ref, read_object_ref, read_surfaces, units,
}
use latticeag_gateway.Catalog.Lexical.{is_slug, is_semver, split_at, parts, is_numeric}
use latticeag_gateway.Catalog.Verify.{read_index, verify_index, signers, increasing}
use latticeag_gateway.Catalog.Verify.Quorum.{IsSigned, verified-IsSigned}
use latticeag_gateway.Catalog.Store.{
  RefreshResult, refresh, accept, accept_verified, verified, freshness_of, index_commitment,
}
use latticeag_gateway.Catalog.Store.Authorize.{
  InstallRequest, InstallAuthorization, authorize_install, pin_of, is_some,
}
use latticeag_gateway.Catalog.Store.Register.{
  Refresh, run, offered, offer, top, cached, refresh_refines,
}
use latticeag_gateway.Catalog.Store.Installs.{MayInstall, authorization, install_exact}
use latticeag_gateway.Catalog.Service.{commit_pin, commit_unpin}
use latticeag_gateway.Catalog.Service.Pins
use latticeag_gateway.Catalog.Service.Pins.{OnePerSlug, Change, pins, unpins, pin_commits_once}

abbrev hash : String
hash = "00000000000000000000000000000000000000000000000000000000000000ab"

abbrev object_ref : Value
object_ref =
    obj
      (field "digest" (str hash) (field "bytes" (str "10") (field "media" (str "text/plain") end)))

abbrev surfaces : Value
surfaces = obj (
    field "local" (str "free")
      (field "hosted" (bool false) (field "tier" (str "oss") (field "entitlement" null end))))

abbrev entry : Value
entry = obj (
    field "slug" (str "lex-one") (
      field "series" (str "lex") (
        field "version" (str "1.2.3-rc.1") (
          field "published_ms" (int (pos 7)) (
            field "manifest" object_ref (
              field "release_signatures" (arr nil)
                (field "adapter_status" (str "stub") (field "surfaces" surfaces end))))))))

abbrev index_value : Value
index_value = obj (
    field "schema" (str "gateway.catalog/1") (
      field "revision" (str "12") (
        field "issued_ms" (int (pos 5)) (
          field "expires_ms" (int (pos 900)) (
            field "channel" (str "stable")
              (field "entries" (arr (cons entry nil)) (field "revocations" (arr nil) end)))))))

abbrev signed_by : String → Value
signed_by key = obj (
    field "key" (str key) (
      field "body"
        (obj (
          field "subject" (obj (field "artifact" (obj (field "digest" (str "sha256:raw") end)) end))
            end))
        end))

abbrev key_of : Value → Option String
key_of v = elim (as_object v) [ none ↦ none | some o ↦ string_at "key" o ]

abbrev trust : CatalogTrust
trust = record {
  key_id = key_of;
  canonical = λ v. some "raw";
  sha256 = λ s. s;
  quorum = 2;
  channel = "stable";
  strict = false;
  allowlist = [];
  max_age_s = 3600;
}

abbrev index : CatalogIndex
index = record {
  revision = 12;
  issued_ms = 5;
  expires_ms = 900;
  channel = "stable";
  entries =
      record {
        slug = "lex-one";
        series = "lex";
        version = "1.2.3-rc.1";
        published_ms = 7;
        manifest = record { digest = hash; bytes = "10"; media = "text/plain" };
        release_signatures = [];
        adapter_status = "stub";
        surfaces = record { local = "free"; hosted = false; tier = "oss"; entitlement = none };
      }
      ∷ [];
  revocations = [];
}

abbrev signatures : List Value
signatures = signed_by "k1" ∷ signed_by "k2" ∷ []

passed : verify_index trust index_value signatures ≡ ok (index, "raw")
unfolding verify_index read_index signers increasing read_items read_entry read_native_ref
    read_object_ref read_surfaces units is_slug is_semver split_at parts is_numeric is_count decimal
    is_hash64
passed = refl

verified-IsSigned_example :
    (read_index index_value ≡ ok index) × IsSigned trust index_value signatures "raw"
verified-IsSigned_example = verified-IsSigned trust index_value signatures index "raw" passed

abbrev empty : Ports
empty = record {
  cache = none;
  highest = none;
  equivocation_log = [];
  pin_list = [];
  pin_rev = 1;
  time_high = 0;
}

abbrev first : Refresh
first = record {
  trust = trust;
  now = 6;
  options = record {
    provided = some (record { index = index_value; signatures = signatures });
    offline = false;
    snapshot = none;
    fetched = err (at revision_conflict "unused");
  };
}

abbrev next : CachedIndex
next = record {
  raw = "raw2";
  digest = "raw2";
  signatures = [];
  index = record index { revision = 13 };
  offline = false;
}

refresh_refines_example :
    ((run (first ∷ []) empty).highest ≡ top (offered (first ∷ [])))
    × (cached (run (first ∷ []) empty).cache ≡ top (offered (first ∷ [])))
    × (((result : RefreshResult) × ((accept trust 8 next (run (first ∷ []) empty)).0 ≡ ok result))
        ↔ (top (offered (first ∷ []) ++ offer next ∷ []) ≡ some (offer next)))
refresh_refines_example = refresh_refines (first ∷ []) empty trust 8 next refl refl refl

abbrev held : CachedIndex
held = record {
  raw = "raw";
  digest = "raw";
  signatures = signatures;
  index = index;
  offline = false;
}

verified_first : verified trust first.options ≡ ok held
unfolding verified
verified_first = rw passed refl

abbrev filled : Ports
filled = record empty {
  cache = some held;
  highest = some (record { revision = 12; digest = "raw" });
  time_high = 6;
}

refreshed_first : (refresh trust 6 first.options empty).1 ≡ filled
unfolding refresh accept_verified accept
refreshed_first = rw verified_first refl

abbrev install : InstallRequest
install = record { slug = "lex-one"; version = "1.2.3-rc.1"; digest = "sha256:aa" }

install_exact_example :
    (authorize_install trust 9 install filled
      ≡ ok (record { pinned = false; freshness = current; is_stale = false }))
    ↔ ((c : CachedIndex) × MayInstall trust 9 install filled c
        × (◌≡◌ {A = InstallAuthorization}
            (record { pinned = false; freshness = current; is_stale = false })
            (authorization
              (is_some (pin_of install.slug filled.pin_list))
              (freshness_of trust 9 c))))
install_exact_example =
    install_exact trust 9 install filled
      (record { pinned = false; freshness = current; is_stale = false })

abbrev lex_pin : CatalogPin
lex_pin = record { slug = "lex-one"; version = "1.2.3"; digest = "sha256:aa"; index = "sha256:raw" }

pinned_first : (commit_pin "lex-one" "1.2.3" "sha256:aa" 1 filled).0 ≡ ok (2, lex_pin)
unfolding commit_pin index_commitment
pinned_first = refl

pin_commits_once_example :
    let s1 = (commit_pin "lex-one" "1.2.3" "sha256:aa" 1 filled).1 in
    let s2 = Pins.run (unpins "lex-one" 2 ∷ []) s1 in
    (pin_of "lex-one" s1.pin_list ≡ some lex_pin)
    × OnePerSlug s2.pin_list
    × (commit_pin "b" "1.0.0" "sha256:bb" 1 s2
        ≡ (err (at revision_conflict "expected_revision"), s2))
    × (commit_unpin "b" 1 s2 ≡ (err (at revision_conflict "expected_revision"), s2))
pin_commits_once_example =
    pin_commits_once "lex-one" "1.2.3" "sha256:aa" 1 filled (2, lex_pin) (unpins "lex-one" 2 ∷ [])
      "b" "1.0.0" "sha256:bb" tt pinned_first
