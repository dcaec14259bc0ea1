-- ===== src/Base/Int.antt =====
-- The integers among JavaScript's numbers: `negsuc n` is -(n + 1).
use latticeag_gateway.Base.{ℕ, suc, ◌-◌, ◌^◌, Bool, true, leb}

pub data ℤ : Type 0 where
  pos : ℕ → ℤ
  negsuc : ℕ → ℤ

abbrev pub max_safe : ℕ
max_safe = 2 ^ 53 - 1

-- `Number.isSafeInteger`
abbrev pub is_safe : ℤ → Bool
is_safe (pos n) = leb n max_safe
is_safe (negsuc n) = leb (suc n) max_safe

-- `now >= t`, for a clock that shows a natural number.
abbrev pub reached : ℕ → ℤ → Bool
reached now (pos t) = leb t now
reached now (negsuc t) = true
