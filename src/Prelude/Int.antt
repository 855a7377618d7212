-- ===== src/Prelude/Int.antt =====
-- Signed results: an `int` that the code returns, and the tests on it.
use Prim.Native.Nat.{ℕ, ◌-◌}
use papers_annotation.Prelude.Tests.{leb, if◌then◌else◌}
use mathlib.Core.Bool.{Bool, true, false}

-- `negsuc n` is -(n + 1).
pub data ℤ : Type 0 where
  pos : ℕ → ℤ
  negsuc : ℕ → ℤ

abbrev pub is_neg : ℤ → Bool
is_neg (pos n) = false
is_neg (negsuc n) = true

-- The difference of two numbers.
abbrev pub int_sub : ℕ → ℕ → ℤ
int_sub m n = if leb n m then pos (m - n) else negsuc (n - m - 1)
