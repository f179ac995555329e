-- ===== src/Base/Int.antt =====
-- The signed integers of C++.
use Prim.Native.Nat.{ℕ, zero, suc}

-- An `int` or an `int64_t`; `negsuc n` is `-(n + 1)`.
pub data ℤ : Type 0 where
  pos : ℕ → ℤ
  negsuc : ℕ → ℤ

unfoldable pub negate : ℕ → ℤ
negate zero = pos 0
negate (suc n) = negsuc n
