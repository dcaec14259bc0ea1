-- ===== src/Exec.antt =====
-- Methods that read and write a store and may throw an `RpcError`. What was written before a throw
-- stays written, so the store comes back beside the error too.
pub mod Checks
pub mod Bind
use latticeag_gateway.Base.{Bool, ◌≡◌, refl, Option, none, some, if◌then◌else◌}
use latticeag_gateway.Protocol.Errors.{RpcError}

pub data Result (A : Type 0) : Type 0 where
  ok : A → Result A
  err : RpcError → Result A

abbrev pub or_err : {A : Type 0} → RpcError → Option A → Result A
or_err e none = err e
or_err e (some a) = ok a

abbrev pub Exec : Type 0 → Type 0 → Type 0
Exec S A = S → Result A × S

module _ {S A : Type 0} where
  abbrev pub pure : A → Exec S A
  pure a s = (ok a, s)

  abbrev pub throw : RpcError → Exec S A
  throw e s = (err e, s)

  abbrev pub lift : Result A → Exec S A
  lift r s = (r, s)

  -- `if (x === null) throw e`
  abbrev pub or_throw : Option A → RpcError → Exec S A
  or_throw none e s = (err e, s)
  or_throw (some a) e s = (ok a, s)

  abbrev pub gets : (S → A) → Exec S A
  gets f s = (ok (f s), s)

infixl 5 ◌>>=◌ ◌>>◌
abbrev pub ◌>>=◌ : {S A B : Type 0} → Exec S A → (A → Exec S B) → Exec S B
◌>>=◌ m f s = let (r, s') = m s in elim r [ ok a ↦ f a s' | err e ↦ (err e, s') ]

abbrev pub ◌>>◌ : {S B : Type 0} → Exec S (Unit {0}) → Exec S B → Exec S B
m >> k = m >>= λ _. k

-- `if (b) throw e`
abbrev pub throw_if : {S : Type 0} → Bool → RpcError → Exec S (Unit {0})
throw_if b e s = (if b then err e else ok tt, s)

abbrev pub modify : {S : Type 0} → (S → S) → Exec S (Unit {0})
modify f s = (ok tt, f s)

-- `if (b) { m }`
abbrev pub when : {S : Type 0} → Bool → Exec S (Unit {0}) → Exec S (Unit {0})
when b m s = if b then m s else (ok tt, s)
