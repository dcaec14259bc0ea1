-- ===== src/Catalog/Verify/Quorum.antt =====
-- packages/core/src/v2/catalog/index.ts: what is sure of an index that verifyIndex passes.
use Prim.Native.String.{◌++◌}
use latticeag_gateway.Base.{
  ◌≤◌, String, Bool, true, false, ◌≡◌, ap, ◌∙◌, inl, inr, Option, none, some, List, [], ◌∷◌, arith,
  eq_iff, eq_refl, leb, leb→le, ◌=ₛ◌, includes, any, length, All, All-imp, Bool-cases, Option-cases,
  subst,
}
use latticeag_gateway.Protocol.Errors.{schema_invalid, body_limit, signature_invalid, at}
use latticeag_gateway.Protocol.Lexical.{byte_length}
use latticeag_gateway.Protocol.Values.{Value}
use latticeag_gateway.Exec.{Result, ok, or_err}
use latticeag_gateway.Exec.Checks.{◌>>=◌, ◌>>◌, require, bind_ok, require_ok}
use latticeag_gateway.Catalog.{CatalogIndex, CatalogTrust, index_bytes, max_signatures}
use latticeag_gateway.Catalog.Verify.{
  read_index, verify_index, signers, add_key, bound_digest, is_digest,
}

abbrev pub Distinct : List String → Type 0
Distinct [] = Unit {0}
Distinct (k ∷ ks) = (includes ks k ≡ false) × Distinct ks

Distinct-add_key : (k : String) (ks : List String) → Distinct ks → Distinct (add_key k ks)
Distinct-add_key k ks h = elim (Bool-cases (includes ks k)) [
  | inl there ↦ rw there h
  | inr new ↦ rw new (new, h)
]

All-add_key :
    (P : String → Type 0) (k : String) (ks : List String) → P k → All P ks → All P (add_key k ks)
All-add_key P k ks p h = elim (Bool-cases (includes ks k)) [
  | inl there ↦ rw there h
  | inr new ↦ rw new (p, h)
]

abbrev pub is_key : String → Option String → Bool
is_key k none = false
is_key k (some j) = j =ₛ k

module _ (t : CatalogTrust) (digest : String) where
  -- The statement verifies under a root and binds the digest.
  abbrev pub Signs : Value → Type 0
  Signs v = ((k : String) × (t.key_id v ≡ some k)) × (bound_digest v ≡ some digest)

  signs_lem : (v : Value) → is_digest digest (bound_digest v) ≡ true → bound_digest v ≡ some digest
  signs_lem v h = elim (Option-cases (bound_digest v)) [
    | inl e ↦ absurd (ground (arith, e, h))
    | inr (d, e) ↦ ground (arith, e, h, eq_iff d digest)
  ]

  signers_lem :
      (P : String → Type 0) (vs : List Value) (ks ks' : List String)
      → signers t digest vs ks ≡ ok ks'
      → All (λ v. (k : String) → t.key_id v ≡ some k → P k) vs
      → Distinct ks
      → All P ks
      → All Signs vs × Distinct ks' × All P ks'
  unfolding signers
  signers_lem P [] ks ks' h from distinct all =
      let same : ks ≡ ks' = ground (arith, h) in (tt, rw (← same) distinct, rw (← same) all)
  signers_lem P (v ∷ vs) ks ks' h from distinct all =
      let (k, key, rest) =
        bind_ok (or_err (at signature_invalid "signatures") (t.key_id v))
          (λ k.
            require (is_digest digest (bound_digest v)) (at signature_invalid "signatures")
            >> signers t digest vs (add_key k ks))
          ks' h in
      let (bound, loop) =
        require_ok (is_digest digest (bound_digest v)) (at signature_invalid "signatures")
          (signers t digest vs (add_key k ks)) ks' rest in
      let own : t.key_id v ≡ some k = keyed (t.key_id v) k key in
      let (others, distinct', all') =
        signers_lem P vs (add_key k ks) ks' loop from.1 (Distinct-add_key k ks distinct)
          (All-add_key P k ks (from.0 k own) all) in
      ((((k, own), signs_lem v bound), others), distinct', all')
    where
      keyed :
          (o : Option String) (k : String)
          → or_err (at signature_invalid "signatures") o ≡ ok k
          → o ≡ some k
      keyed none k h = absurd (ground arith)
      keyed (some j) k h = ground (arith, h)

own_keys :
    (t : CatalogTrust) (vs : List Value)
    → All (λ v. (k : String) → t.key_id v ≡ some k → any (λ w. is_key k (t.key_id w)) vs ≡ true) vs
own_keys t [] = tt
own_keys t (v ∷ vs) = (
  (λ k e. ground (arith, e, eq_refl k)),
  All-imp vs (λ w h k e. ground (arith, h k e)) (own_keys t vs),
)

-- What a passed index has: all its signatures bind its own text, and enough distinct keys made them.
pub record IsSigned (t : CatalogTrust) (v : Value) (signatures : List Value) (raw : String)
    : Type 0 where
  pub text : t.canonical v ≡ some raw
  pub size : byte_length raw ≤ index_bytes
  pub few : length signatures ≤ max_signatures
  pub all_bound : All (Signs t ("sha256:" ++ t.sha256 raw)) signatures
  pub keys : List String
  pub distinct : Distinct keys
  pub signed : All (λ k. any (λ w. is_key k (t.key_id w)) signatures ≡ true) keys
  pub enough : t.quorum ≤ length keys

module _ (t : CatalogTrust) (v : Value) (signatures : List Value) where
  abbrev digest_of : String → String
  digest_of raw = "sha256:" ++ t.sha256 raw

  abbrev by_quorum : CatalogIndex → String → Result (CatalogIndex × String)
  by_quorum i raw = signers t (digest_of raw) signatures [] >>= λ ks.
      require (leb t.quorum (length ks)) (at signature_invalid "signatures") >> ok (i, raw)

  abbrev by_size : CatalogIndex → String → Result (CatalogIndex × String)
  by_size i raw =
      require (leb (byte_length raw) index_bytes) (at body_limit "entries")
      >> (require (leb (length signatures) max_signatures) (at schema_invalid "signatures")
          >> by_quorum i raw)

  text_lem :
      (o : Option String) (raw : String)
      → or_err (at schema_invalid "(root)") o ≡ ok raw
      → o ≡ some raw
  text_lem none raw h = absurd (ground arith)
  text_lem (some r) raw h = ground (arith, h)

  sized_lem :
      (i index : CatalogIndex) (r raw : String)
      → t.canonical v ≡ some r
      → by_size i r ≡ ok (index, raw)
      → (i ≡ index) × IsSigned t v signatures raw
  sized_lem i index r raw text h =
      let (size, h1) =
        require_ok (leb (byte_length r) index_bytes) (at body_limit "entries")
          (require (leb (length signatures) max_signatures) (at schema_invalid "signatures")
            >> by_quorum i r)
          (index, raw) h in
      let (few, h2) =
        require_ok (leb (length signatures) max_signatures) (at schema_invalid "signatures")
          (by_quorum i r) (index, raw) h1 in
      let (ks, loop, h3) =
        bind_ok (signers t (digest_of r) signatures [])
          (λ ks.
            require (leb t.quorum (length ks)) (at signature_invalid "signatures") >> ok (i, r))
          (index, raw) h2 in
      let (enough, h4) =
        require_ok (leb t.quorum (length ks)) (at signature_invalid "signatures") (ok (i, r))
          (index, raw) h3 in
      let same : r ≡ raw = ground (arith, h4) in
      let (bound, distinct, signed) =
        signers_lem t (digest_of r) (λ k. any (λ w. is_key k (t.key_id w)) signatures ≡ true)
          signatures [] ks loop (own_keys t signatures) tt tt in
      (
        ground (arith, h4),
        subst (IsSigned t v signatures) same (record {
          text = text;
          size = leb→le (byte_length r) index_bytes size;
          few = leb→le (length signatures) max_signatures few;
          all_bound = bound;
          keys = ks;
          distinct = distinct;
          signed = signed;
          enough = leb→le t.quorum (length ks) enough;
        }),
      )

-- An index passes only if it reads as one and its canonical text is at most 8 MiB long, it has at most 16
-- signatures, each of which verifies under a root and binds the digest of that very text, and at least
-- the quorum of distinct keys made them; an extra signature that does not verify fails the index.
pub verified-IsSigned :
    (t : CatalogTrust) (v : Value) (signatures : List Value) (index : CatalogIndex) (raw : String)
    → verify_index t v signatures ≡ ok (index, raw)
    → (read_index v ≡ ok index) × IsSigned t v signatures raw
unfolding verify_index
verified-IsSigned t v signatures index raw h =
    let (i, reads, h1) =
      bind_ok (read_index v)
        (λ i.
          or_err (at schema_invalid "(root)") (t.canonical v) >>= λ r. by_size t v signatures i r)
        (index, raw) h in
    let (r, canon, h2) =
      bind_ok (or_err (at schema_invalid "(root)") (t.canonical v))
        (λ r. by_size t v signatures i r) (index, raw) h1 in
    let (same, signed) =
      sized_lem t v signatures i index r raw (text_lem t v signatures (t.canonical v) r canon) h2 in
    (reads ∙ ap (λ x. ok x) same, signed)
