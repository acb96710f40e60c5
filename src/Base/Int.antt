-- ===== src/Base/Int.antt =====
-- Signed integers over the native numbers.
use Prim.Native.Nat.{ℕ, suc, ◌+◌, ◌-◌, ◌*◌, ◌/◌, ◌%◌, ◌^◌}
use mathlib.Core.Bool.{Bool, true, false}
use verlihub.Base.Tests.{ltb, leb, if◌then◌else◌}

-- `negsuc n` is -(n + 1).
pub data ℤ : Type 0 where
  pos : ℕ → ℤ
  negsuc : ℕ → ℤ

-- a - b, as an integer.
abbrev pub sub_ℕ : ℕ → ℕ → ℤ
sub_ℕ a b = if leb b a then pos (a - b) else negsuc (b - a - 1)

-- `z + n` and `z - n` for a number `n`.
abbrev pub add_nat : ℤ → ℕ → ℤ
add_nat (pos a) n = pos (a + n)
add_nat (negsuc a) n = sub_ℕ n (suc a)

abbrev pub sub_nat : ℤ → ℕ → ℤ
sub_nat (pos a) n = sub_ℕ a n
sub_nat (negsuc a) n = negsuc (a + n)

-- `0 <= z`
abbrev pub is_nonneg : ℤ → Bool
is_nonneg (pos a) = true
is_nonneg (negsuc a) = false

-- The conversion of an `int` to an unsigned type of `2 ^ w` values.
abbrev pub to_unsigned : ℕ → ℤ → ℕ
to_unsigned w (pos a) = a % 2 ^ w
to_unsigned w (negsuc a) = (2 ^ w - 1) - a % 2 ^ w

infixl 60 ◌+ℤ◌
abbrev pub ◌+ℤ◌ : ℤ → ℤ → ℤ
x +ℤ pos n = add_nat x n
x +ℤ negsuc n = sub_nat x (suc n)

infixl 60 ◌-ℤ◌
abbrev pub ◌-ℤ◌ : ℤ → ℤ → ℤ
x -ℤ pos n = sub_nat x n
x -ℤ negsuc n = add_nat x (suc n)

-- `x < y`
abbrev pub lt_int : ℤ → ℤ → Bool
lt_int (pos a) (pos b) = ltb a b
lt_int (pos a) (negsuc b) = false
lt_int (negsuc a) (pos b) = true
lt_int (negsuc a) (negsuc b) = ltb b a

-- The division of C++ by a positive number, which rounds to zero, and its remainder.
abbrev pub div_int : ℤ → ℕ → ℤ
div_int (pos a) n = pos (a / n)
div_int (negsuc a) n = sub_ℕ 0 (suc a / n)

abbrev pub mod_int : ℤ → ℕ → ℤ
mod_int (pos a) n = pos (a % n)
mod_int (negsuc a) n = sub_ℕ 0 (suc a % n)

abbrev pub mul_int : ℤ → ℕ → ℤ
mul_int (pos a) n = pos (a * n)
mul_int (negsuc a) n = sub_ℕ 0 (suc a * n)
