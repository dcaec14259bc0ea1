-- ===== src/Peers/Proofs/RoundTrip.antt =====
-- packages/core/src/v2/peers/proofs.ts: the headers that carry a proof are read back as it, in any case.
use latticeag_gateway.Base.{
  ℕ, String, Bool, true, not, ◌&&◌, ◌≡◌, refl, Option, none, some, List, [], ◌∷◌, ap, arith,
  eq_refl, ◌=ₛ◌,
}
use latticeag_gateway.Protocol.Lexical.{is_count}
use latticeag_gateway.Exec.{ok}
use latticeag_gateway.Peers.Proofs.{ProofFields}
use latticeag_gateway.Peers.Proofs.Headers.{header, found_header, read_proof_headers}

-- The names of the headers as a client spells them.
pub record Names : Type 0 where
  pub nonce : String
  pub epoch : String
  pub issued : String
  pub expires : String
  pub proof : String

abbrev pub wire_names : Names
wire_names = record {
  nonce = "X-LatticeAG-Nonce";
  epoch = "X-LatticeAG-Epoch";
  issued = "X-LatticeAG-Issued-Ms";
  expires = "X-LatticeAG-Expires-Ms";
  proof = "X-LatticeAG-Key-Proof";
}

abbrev pub lowered : (String → String) → Names → Names
lowered lower n = record {
  nonce = lower n.nonce;
  epoch = lower n.epoch;
  issued = lower n.issued;
  expires = lower n.expires;
  proof = lower n.proof;
}

abbrev pub apart : Names → Bool
apart n =
    not (n.nonce =ₛ n.epoch)
    && not (n.nonce =ₛ n.issued)
    && not (n.nonce =ₛ n.expires)
    && not (n.nonce =ₛ n.proof)
    && not (n.epoch =ₛ n.issued)
    && not (n.epoch =ₛ n.expires)
    && not (n.epoch =ₛ n.proof)
    && not (n.issued =ₛ n.expires)
    && not (n.issued =ₛ n.proof)
    && not (n.expires =ₛ n.proof)

-- The headers of a proof; `show` writes a number in decimal.
abbrev pub write_headers : (ℕ → String) → Names → ProofFields → List (String × Option String)
write_headers show n p =
    (n.nonce, some p.nonce)
    ∷ (n.epoch, some p.epoch)
    ∷ (n.issued, some (show p.issued_ms))
    ∷ (n.expires, some (show p.expires_ms))
    ∷ (n.proof, some p.proof)
    ∷ []

abbrev chain :
    String
    → Names
    → Option String
    → Option String
    → Option String
    → Option String
    → Option String
    → Option String
chain k n v w x y z = found_header (n.nonce =ₛ k) v (
    found_header (n.epoch =ₛ k) w (
      found_header (n.issued =ₛ k) x
        (found_header (n.expires =ₛ k) y (found_header (n.proof =ₛ k) z none))))

five :
    (a b c d e : String) (v w x y z : Option String)
    → apart (record { nonce = a; epoch = b; issued = c; expires = d; proof = e }) ≡ true
    → let n : Names = record { nonce = a; epoch = b; issued = c; expires = d; proof = e } in
      (chain a n v w x y z ≡ v)
      × (chain b n v w x y z ≡ w)
      × (chain c n v w x y z ≡ x)
      × (chain d n v w x y z ≡ y)
      × (chain e n v w x y z ≡ z)
five a b c d e v w x y z h = (
  rw (eq_refl a) refl,
  ground (arith, h, eq_refl b),
  ground (arith, h, eq_refl c),
  ground (arith, h, eq_refl d),
  ground (arith, h, eq_refl e),
)

module _ (lower : String → String) (n : Names) (same : lowered lower n ≡ lowered lower wire_names)
    (differ : apart (lowered lower wire_names) ≡ true) where
  read_header :
      (show : ℕ → String) (p : ProofFields)
      → let hs : List (String × Option String) = write_headers show n p in
        (header lower "X-LatticeAG-Nonce" hs ≡ some p.nonce)
        × (header lower "X-LatticeAG-Epoch" hs ≡ some p.epoch)
        × (header lower "X-LatticeAG-Issued-Ms" hs ≡ some (show p.issued_ms))
        × (header lower "X-LatticeAG-Expires-Ms" hs ≡ some (show p.expires_ms))
        × (header lower "X-LatticeAG-Key-Proof" hs ≡ some p.proof)
  unfolding header
  read_header show p =
      let e1 : lower n.nonce ≡ lower "X-LatticeAG-Nonce" = ap (λ m. m.nonce) same in
      let e2 : lower n.epoch ≡ lower "X-LatticeAG-Epoch" = ap (λ m. m.epoch) same in
      let e3 : lower n.issued ≡ lower "X-LatticeAG-Issued-Ms" = ap (λ m. m.issued) same in
      let e4 : lower n.expires ≡ lower "X-LatticeAG-Expires-Ms" = ap (λ m. m.expires) same in
      let e5 : lower n.proof ≡ lower "X-LatticeAG-Key-Proof" = ap (λ m. m.proof) same in
      rw (e1, e2, e3, e4, e5)
        (five (lower "X-LatticeAG-Nonce") (lower "X-LatticeAG-Epoch")
          (lower "X-LatticeAG-Issued-Ms") (lower "X-LatticeAG-Expires-Ms")
          (lower "X-LatticeAG-Key-Proof") (some p.nonce) (some p.epoch) (some (show p.issued_ms))
          (some (show p.expires_ms)) (some p.proof) differ)

  -- Let the client spell the names of the headers in any case, where lower case tells the five names
  -- apart, and write both times as decimals that Number reads back. Then the headers of a proof are read
  -- as that proof.
  pub read-write_headers :
      (number : String → ℕ) (show : ℕ → String) (p : ProofFields)
      → number (show p.issued_ms) ≡ p.issued_ms
      → number (show p.expires_ms) ≡ p.expires_ms
      → is_count (show p.issued_ms) ≡ true
      → is_count (show p.expires_ms) ≡ true
      → read_proof_headers lower number (write_headers show n p) ≡ ok p
  unfolding read_proof_headers
  read-write_headers number show p back back' decimal decimal' =
      let (h1, h2, h3, h4, h5) = read_header show p in
      rw (h1, h2, h3, h4, h5, decimal, decimal', back, back') refl
