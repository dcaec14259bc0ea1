-- ===== src/Exec/Checks.antt =====
-- Chains of checks that do not touch the store.
use latticeag_gateway.Base.{Bool, true, false, ◌≡◌, refl, arith, if◌then◌else◌}
use latticeag_gateway.Protocol.Errors.{RpcError}
use latticeag_gateway.Exec.{Result, ok, err}

infixl 5 ◌>>=◌ ◌>>◌
abbrev pub ◌>>=◌ : {A B : Type 0} → Result A → (A → Result B) → Result B
ok a >>= f = f a
err e >>= f = err e

abbrev pub ◌>>◌ : {B : Type 0} → Result (Unit {0}) → Result B → Result B
m >> k = m >>= λ _. k

-- `if (!b) throw e`
abbrev pub require : Bool → RpcError → Result (Unit {0})
require b e = if b then ok tt else err e

-- A chain of checks that passes passes each of them.
pub bind_ok :
    {A B : Type 0} (m : Result A) (f : A → Result B) (b : B)
    → (m >>= f) ≡ ok b
    → (a : A) × (m ≡ ok a) × (f a ≡ ok b)
bind_ok (ok a) f b h = (a, refl, h)
bind_ok (err e) f b h = absurd (ground arith)

pub require_ok :
    {B : Type 0} (t : Bool) (e : RpcError) (k : Result B) (b : B)
    → (require t e >> k) ≡ ok b
    → (t ≡ true) × (k ≡ ok b)
require_ok true e k b h = (refl, h)
require_ok false e k b h = absurd (ground arith)
