-- ===== src/Common/Bits/Mask.antt =====
-- A mask of low bits as a remainder.
use Prim.Native.Nat.{
  ℕ, zero, suc, ◌+◌, ◌-◌, ◌*◌, ◌/◌, ◌%◌, ◌^◌, ◌≤◌, ◌<◌, min, bit_and, bit_and-bitwise,
}
use mathlib.Core.Path.{◌≡◌, sym, ap, ◌∙◌}
use native.Mathlib.Nat.{
  zero-mod, pow-suc, mul_assoc, div-add-mod', add-mul-mod_self_right, mod-eq_of_lt, mod-lt,
  pow-le-pow_right,
}
use nfs_client_simulator.Common.Bits.{bitwise_half}
use native.Mathlib.Omega.{arith}

pow_pos : (k : ℕ) → 0 < 2 ^ k
pow_pos k =
    let one : 2 ^ 0 ≤ 2 ^ k =
      pow-le-pow_right {n = 2} (omega arith) {i = 0} {j = k} (omega arith) in
    omega arith

-- One digit of `&`.
and_half : (a b : ℕ) → bit_and (suc a) b ≡ bit_and (suc a / 2) (b / 2) * 2 + min (suc a % 2) (b % 2)
and_half a b = omega (
  arith,
  bit_and-bitwise (suc a) b,
  bit_and-bitwise (suc a / 2) (b / 2),
  bitwise_half (λ y. zero) min a b,
)

and_nothing : (n a : ℕ) → a ≤ n → bit_and a 0 ≡ 0
and_nothing n zero h = bit_and-bitwise 0 0
and_nothing (suc n) (suc a) h = omega (arith, and_half a 0, and_nothing n (suc a / 2) (omega arith))
and_nothing zero (suc a) h = absurd (omega arith)

-- A remainder by an even number, from the half of the number and its last digit.
halves : (p a : ℕ) → 0 < p → (a / 2 % p) * 2 + a % 2 ≡ a % (p * 2)
halves p a h =
    let q = a / 2 / p in
    let r = (a / 2 % p) * 2 + a % 2 in
    let low : a / 2 % p < p = mod-lt (a / 2) h in
    let double : q * (p * 2) ≡ q * p * 2 = sym (mul_assoc q p 2) in
    let whole : a ≡ r + q * (p * 2) = omega (arith, double, div-add-mod' (a / 2) p) in
    sym (
      ap (λ n. n % (p * 2)) whole
      ∙ add-mul-mod_self_right r q (p * 2)
      ∙ mod-eq_of_lt (omega (arith, low)))

-- `a & (2 ^ k - 1)`
pub and_mask : (k a : ℕ) → bit_and a (2 ^ k - 1) ≡ a % 2 ^ k
and_mask zero a = let none : a % 1 ≡ 0 = omega arith in and_nothing a a (omega arith) ∙ sym none
and_mask (suc k) zero = bit_and-bitwise 0 (2 ^ suc k - 1) ∙ sym (zero-mod (2 ^ suc k))
and_mask (suc k) (suc a) =
    let p : 2 ^ suc k ≡ 2 ^ k * 2 = pow-suc 2 k in
    let one : 0 < 2 ^ k = pow_pos k in
    let high : (2 ^ suc k - 1) / 2 ≡ 2 ^ k - 1 = omega (arith, p, one) in
    let last : (2 ^ suc k - 1) % 2 ≡ 1 = omega (arith, p, one) in
    and_half a (2 ^ suc k - 1)
    ∙ rw (high, last, and_mask k (suc a / 2)) (ground (arith, halves (2 ^ k) (suc a) one, p))
