-- ===== src/Prelude/Int.antt =====
-- Signed integers over the native numbers: `negsuc n` is -(n + 1).
use Prim.Native.Nat.{ℕ, zero, suc, compare, Ordering}
use mathlib.Core.Bool.{Bool, true, false}

pub data ℤ : Type 0 where
  pos : ℕ → ℤ
  negsuc : ℕ → ℤ

-- -n
abbrev pub negate : ℕ → ℤ
negate zero = pos 0
negate (suc n) = negsuc n

-- z < n
abbrev pub lt_ℕ : ℤ → ℕ → Bool
lt_ℕ (pos m) n = elim (compare m n) [ Ordering.lt ↦ true | _ ↦ false ]
lt_ℕ (negsuc m) n = true

abbrev pub to_ℕ : ℤ → ℕ
to_ℕ (pos m) = m
to_ℕ (negsuc m) = 0
