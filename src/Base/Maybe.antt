-- ===== src/Base/Maybe.antt =====
-- Chains of checks that give a value or nothing.
use latticeag_gateway.Base.{Bool, Option, none, some, if◌then◌else◌}

infixl 5 ◌>>=◌ ◌>>◌
abbrev pub ◌>>=◌ : {A B : Type 0} → Option A → (A → Option B) → Option B
none >>= f = none
some a >>= f = f a

abbrev pub ◌>>◌ : {B : Type 0} → Option (Unit {0}) → Option B → Option B
m >> k = m >>= λ _. k

abbrev pub keep_if : Bool → Option (Unit {0})
keep_if b = if b then some tt else none
