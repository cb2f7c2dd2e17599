-- ===== src/Common/Int.antt =====
-- Signed machine integers: a sign and a native number, with the C++ `int` range.
use Prim.Native.Nat.{ℕ}

-- `negsuc n` is -(n + 1).
pub data ℤ : Type 0 where
  pos : ℕ → ℤ
  negsuc : ℕ → ℤ

-- INT_MAX for a 32-bit `int`.
abbrev pub int_max : ℕ
int_max = 2147483647
