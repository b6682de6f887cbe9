-- ===== src/Common/Int.antt =====
-- The values of an int32_t as integers, over the native numbers and under the library's names.
use Prim.Native.Nat.{ℕ, zero, suc, ◌-◌, ◌^◌, ◌<◌}
use mathlib.Core.Bool.{Bool, true, false}
use mathlib.Core.Path.{◌≡◌}
use mathlib.Core.Logic.{◌≢◌}
use native.Mathlib.Omega.{arith}
use nfs_client_simulator.Common.{◌==◌, ltb, if◌then◌else◌}

-- `negsuc n` is -(n + 1).
pub data ℤ : Type 0 where
  pos : ℕ → ℤ
  negsuc : ℕ → ℤ

abbrev pub minus_one : ℤ
minus_one = negsuc zero

abbrev pub eqb : ℤ → ℤ → Bool
eqb (pos m) (pos n) = m == n
eqb (pos m) (negsuc n) = false
eqb (negsuc m) (pos n) = false
eqb (negsuc m) (negsuc n) = m == n

-- `a > 0`
abbrev pub is_positive : ℤ → Bool
is_positive (pos zero) = false
is_positive (pos (suc n)) = true
is_positive (negsuc n) = false

-- `a < 0`
abbrev pub is_negative : ℤ → Bool
is_negative (pos n) = false
is_negative (negsuc n) = true

-- `++a` and `--a`, with no bound.
abbrev pub increment : ℤ → ℤ
increment (pos n) = pos (suc n)
increment (negsuc zero) = pos 0
increment (negsuc (suc n)) = negsuc n

abbrev pub decrement : ℤ → ℤ
decrement (pos zero) = negsuc 0
decrement (pos (suc n)) = pos n
decrement (negsuc n) = negsuc (suc n)

-- static_cast<int32_t> of a uint32_t.
abbrev pub to_int32 : ℕ → ℤ
to_int32 v = if ltb v (2 ^ 31) then pos v else negsuc (2 ^ 32 - 1 - v)

-- And back.
abbrev pub to_u32 : ℤ → ℕ
to_u32 (pos n) = n
to_u32 (negsuc n) = 2 ^ 32 - 1 - n

pub eqb→eq : (a b : ℤ) → eqb a b ≡ true → a ≡ b
eqb→eq a b h = ground arith

pub ne→eqb_false : (a b : ℤ) → a ≢ b → eqb a b ≡ false
ne→eqb_false a b h = ground arith

pub eqb_refl : (a : ℤ) → eqb a a ≡ true
eqb_refl a = ground arith

-- A number of 32 bits survives both conversions.
pub to_u32-to_int32 : (n : ℕ) → n < 2 ^ 32 → to_u32 (to_int32 n) ≡ n
to_u32-to_int32 n h = ground arith
