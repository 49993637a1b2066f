-- ===== src/Base/Int.antt =====
-- Signed numbers for the source's `int`: `negsuc n` is -(n + 1).
use Prim.Native.Nat.{ℕ, zero, suc, ◌+◌}
use mathlib.Core.Bool.{Bool, false}
use kvdb.Base.Tests.{◌==◌}

pub data ℤ : Type 0 where
  pos : ℕ → ℤ
  negsuc : ℕ → ℤ

-- i + n for a number n that is not negative.
abbrev pub add_ℕ : ℤ → ℕ → ℤ
add_ℕ (pos a) n = pos (a + n)
add_ℕ i zero = i
add_ℕ (negsuc zero) (suc n) = pos n
add_ℕ (negsuc (suc a)) (suc n) = add_ℕ (negsuc a) n

infix 50 ◌==ℤ◌
abbrev pub ◌==ℤ◌ : ℤ → ℤ → Bool
pos a ==ℤ pos b = a == b
negsuc a ==ℤ negsuc b = a == b
_ ==ℤ _ = false
