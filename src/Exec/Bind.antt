-- ===== src/Exec/Bind.antt =====
-- Calls in sequence: when they succeed, and what they keep of the store.
use latticeag_gateway.Base.{◌≡◌, refl, ap, arith}
use latticeag_gateway.Exec.{Result, ok, err, Exec, ◌>>=◌, ◌>>◌}

module _ {S : Type 0} where
  pub then_ok :
      (m k : Exec S (Unit {0})) (s s' : S)
      → (m >> k) s ≡ (ok tt, s')
      → (s1 : S) × (m s ≡ (ok tt, s1)) × (k s1 ≡ (ok tt, s'))
  then_ok m k s s' h = go (m s) refl h
    where
      go :
          (o : Result (Unit {0}) × S)
          → m s ≡ o
          → (elim o.0 [ ok a ↦ k o.1 | err e ↦ (err e, o.1) ]) ≡ (ok tt, s')
          → (s1 : S) × (m s ≡ (ok tt, s1)) × (k s1 ≡ (ok tt, s'))
      go (ok tt, s1) e q = (s1, e, q)
      go (err x, s1) e q = absurd (ground arith)

  pub after_ok : (m k : Exec S (Unit {0})) (s s' : S) → m s ≡ (ok tt, s') → (m >> k) s ≡ k s'
  after_ok m k s s' h =
      let after : Result (Unit {0}) × S → Result (Unit {0}) × S =
        λ o. elim o.0 [ ok a ↦ k o.1 | err e ↦ (err e, o.1) ] in
      ap after h

-- What every part keeps, the sequence keeps.
pub bind_keeps :
    {S A B : Type 0} (P : S → Type 0) (m : Exec S A) (f : A → Exec S B) (s : S)
    → P (m s).1
    → ((a : A) (s' : S) → P s' → P (f a s').1)
    → P ((m >>= f) s).1
bind_keeps {S} {A} {B} P m f s h k = go (m s) h
  where
    go :
        (o : Result A × S)
        → P o.1
        → P (let r : Result B × S = elim o.0 [ ok a ↦ f a o.1 | err e ↦ (err e, o.1) ] in r).1
    go (ok a, s') h = k a s' h
    go (err e, s') h = h
