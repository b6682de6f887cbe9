-- ===== src/Common/Bits.antt =====
-- Masks and shifted `|` as arithmetic: the forms that the XDR code uses.
pub mod Mask
use Prim.Native.Nat.{
  ℕ, zero, suc, ◌+◌, ◌*◌, ◌/◌, ◌%◌, ◌^◌, ◌≤◌, ◌<◌, max, bit_or, bit_and, digits, bitwise,
  bit_or-bitwise,
}
use mathlib.Core.Path.{◌≡◌, refl, ap}
use mathlib.Core.Bool.{Bool, true, ◌&&◌}
use native.Mathlib.Nat.{pow-suc}
use native.Mathlib.Omega.{arith}
use nfs_client_simulator.Common.{◌==◌, ==_iff}

-- The digits of an operation: their count may be any bound of the first number.
digits_any :
    (z : ℕ → ℕ) (f : ℕ → ℕ → ℕ) (a b n m : ℕ) → a ≤ n → a ≤ m → digits z f n a b ≡ digits z f m a b
digits_any z f zero b zero zero p q = refl
digits_any z f zero b zero (suc m) p q = refl
digits_any z f zero b (suc n) zero p q = refl
digits_any z f zero b (suc n) (suc m) p q = refl
digits_any z f (suc a) b (suc n) (suc m) p q =
    ap (λ t. t * 2 + f (suc a % 2) (b % 2))
      (digits_any z f (suc a / 2) (b / 2) n m (omega arith) (omega arith))
digits_any z f (suc a) b zero m p q = absurd (omega arith)
digits_any z f (suc a) b (suc n) zero p q = absurd (omega arith)

-- An operation on two numbers, from their halves and their last digits.
pub bitwise_half :
    (z : ℕ → ℕ) (f : ℕ → ℕ → ℕ) (a b : ℕ)
    → bitwise z f (suc a) b ≡ bitwise z f (suc a / 2) (b / 2) * 2 + f (suc a % 2) (b % 2)
bitwise_half z f a b =
    ap (λ t. t * 2 + f (suc a % 2) (b % 2))
      (digits_any z f (suc a / 2) (b / 2) a (suc a / 2) (omega arith) (omega arith))

or_half : (a b : ℕ) → bit_or a b ≡ bit_or (a / 2) (b / 2) * 2 + max (a % 2) (b % 2)
or_half zero b = omega (arith, bit_or-bitwise 0 b, bit_or-bitwise 0 (b / 2))
or_half (suc a) b = omega (
  arith,
  bit_or-bitwise (suc a) b,
  bit_or-bitwise (suc a / 2) (b / 2),
  bitwise_half (λ y. y) max a b,
)

or-zero_below : (n a : ℕ) → a ≤ n → bit_or a 0 ≡ a
or-zero_below n zero h = refl
or-zero_below zero (suc a) h = absurd (omega arith)
or-zero_below (suc n) (suc a) h =
    omega (arith, or_half (suc a) 0, or-zero_below n (suc a / 2) (omega arith))

pub zero-or : (b : ℕ) → bit_or 0 b ≡ b
zero-or b = omega (arith, bit_or-bitwise 0 b)

-- `(q << k) | r` is a sum where `r` has at most `k` bits.
pub or_shifted : (k q r : ℕ) → r < 2 ^ k → bit_or (q * 2 ^ k) r ≡ q * 2 ^ k + r
or_shifted zero q r h = ground (arith, or-zero_below q q)
or_shifted (suc k) q r h = ground (
  arith,
  ap (λ (t : ℕ). q * t) (pow-suc 2 k),
  pow-suc 2 k,
  or_half (q * 2 ^ suc k) r,
  or_shifted k q (r / 2),
)

-- A statement about numbers below a bound, checked at each of them.
unfoldable pub all_below : ℕ → (ℕ → Bool) → Bool
all_below zero p = true
all_below (suc n) p = p n && all_below n p

pub all_below→true : (n : ℕ) (p : ℕ → Bool) (x : ℕ) → all_below n p ≡ true → x < n → p x ≡ true
unfolding all_below
all_below→true zero p x e h = absurd (omega arith)
all_below→true (suc n) p x e h = ground (arith, all_below→true n p x)

set_top_table : all_below 256 (λ b. bit_or b 0x80 == b % 128 + 128) ≡ true
unfolding all_below
set_top_table = refl

clear_top_table : all_below 256 (λ b. bit_and b 0xffff_ff7f == b % 128) ≡ true
unfolding all_below
clear_top_table = refl

-- `b | (1 << 7)` on a byte.
pub or_top : (b : ℕ) → b < 256 → bit_or b 0x80 ≡ b % 128 + 128
or_top b h = (==_iff _ _).0 (all_below→true 256 _ b set_top_table h)

-- `b & ~(1 << 7)` on a byte; the complement is taken at 32 bits.
pub and_clear_top : (b : ℕ) → b < 256 → bit_and b 0xffff_ff7f ≡ b % 128
and_clear_top b h = (==_iff _ _).0 (all_below→true 256 _ b clear_top_table h)
