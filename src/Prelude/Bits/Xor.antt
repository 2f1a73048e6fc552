-- ===== src/Prelude/Bits/Xor.antt =====
-- `^` with one bit: the bit is turned over.
use athera.Prelude.Bits.Step.{bit_xor_step}
use Prim.Native.Nat.{
  ℕ, zero, suc, ◌+◌, ◌*◌, ◌/◌, ◌%◌, ◌^◌, ◌≤◌, ◌<◌, bit_xor, bit_xor-bitwise, differ,
}
use mathlib.Core.Path.{◌≡◌, refl, sym, ap, ◌∙◌}
use native.Mathlib.Omega.{arith}

differ_zero : (a : ℕ) → differ a 0 ≡ a
differ_zero zero = refl
differ_zero (suc a) = refl

bit_xor-zero_below : (k a : ℕ) → a ≤ k → bit_xor a 0 ≡ a
bit_xor-zero_below k zero h = bit_xor-bitwise 0 0
bit_xor-zero_below zero (suc a) h = absurd (omega arith)
bit_xor-zero_below (suc k) (suc a) h = omega (
  arith,
  bit_xor_step (suc a) 0,
  differ_zero (suc a % 2),
  bit_xor-zero_below k (suc a / 2) (omega arith),
)

bit_xor-twice : (a b : ℕ) → bit_xor (2 * a) (2 * b) ≡ 2 * bit_xor a b
bit_xor-twice a b =
    let left : 2 * a / 2 ≡ a = omega arith in
    let right : 2 * b / 2 ≡ b = omega arith in
    let low : 2 * a % 2 ≡ 0 = omega arith in
    let low' : 2 * b % 2 ≡ 0 = omega arith in
    bit_xor_step (2 * a) (2 * b) ∙ rw (left, right, low, low') (omega arith)

pub bit_xor_even : (m q : ℕ) → bit_xor (2 * q * 2 ^ m) (2 ^ m) ≡ 2 * q * 2 ^ m + 2 ^ m
bit_xor_even zero q =
    let low : 2 * q * 1 % 2 ≡ 0 = omega arith in
    let half : 2 * q * 1 / 2 ≡ q = omega arith in
    bit_xor_step (2 * q * 1) 1
    ∙ rw (low, half) (omega (arith, bit_xor-zero_below q q (omega arith)))
bit_xor_even (suc m) q =
    let p : 2 * q * 2 ^ suc m ≡ 2 * (2 * q * 2 ^ m) = grind arith in
    let o : 2 ^ suc m ≡ 2 * 2 ^ m = omega arith in
    rw (p, o) (bit_xor-twice (2 * q * 2 ^ m) (2 ^ m) ∙ omega (arith, bit_xor_even m q))

pub bit_xor_odd : (m q : ℕ) → bit_xor ((2 * q + 1) * 2 ^ m) (2 ^ m) ≡ 2 * q * 2 ^ m
bit_xor_odd zero q =
    let low : (2 * q + 1) * 1 % 2 ≡ 1 = omega arith in
    let half : (2 * q + 1) * 1 / 2 ≡ q = omega arith in
    bit_xor_step ((2 * q + 1) * 1) 1
    ∙ rw (low, half) (omega (arith, bit_xor-zero_below q q (omega arith)))
bit_xor_odd (suc m) q =
    let p : (2 * q + 1) * 2 ^ suc m ≡ 2 * ((2 * q + 1) * 2 ^ m) = grind arith in
    let r : 2 * q * 2 ^ suc m ≡ 2 * (2 * q * 2 ^ m) = grind arith in
    let o : 2 ^ suc m ≡ 2 * 2 ^ m = omega arith in
    rw (p, r, o) (bit_xor-twice ((2 * q + 1) * 2 ^ m) (2 ^ m) ∙ omega (arith, bit_xor_odd m q))

pub bit_xor-zero : (a : ℕ) → bit_xor a 0 ≡ a
bit_xor-zero a = bit_xor-zero_below a a (omega arith)

differ-below : (n x y : ℕ) → x ≤ n → y ≤ n → differ x y ≤ n
differ-below n zero y p q = q
differ-below n (suc x) zero p q = p
differ-below zero (suc x) (suc y) p q = absurd (omega arith)
differ-below (suc n) (suc x) (suc y) p q =
    omega (arith, differ-below n x y (omega arith) (omega arith))

differ_bit : (a b : ℕ) → differ (a % 2) (b % 2) ≤ 1
differ_bit a b = differ-below 1 (a % 2) (b % 2) (omega arith) (omega arith)

differ_parity : (x y : ℕ) → x ≤ 1 → y ≤ 1 → differ x y ≡ (x + y) % 2
differ_parity zero y p q = omega arith
differ_parity (suc x) zero p q = omega arith
differ_parity (suc x) (suc y) p q =
    let left : x ≡ 0 = omega arith in let right : y ≡ 0 = omega arith in rw (left, right) refl

differ-same : (x y : ℕ) → differ x y ≡ 0 → x ≡ y
differ-same zero y e = sym e
differ-same (suc x) zero e = e
differ-same (suc x) (suc y) e = ap suc (differ-same x y e)

pub bit_xor-bound : (k a b : ℕ) → a < 2 ^ k → b < 2 ^ k → bit_xor a b < 2 ^ k
bit_xor-bound zero a b p q =
    let left : a ≡ 0 = omega arith in
    let right : b ≡ 0 = omega arith in rw (left, right) (omega (arith, bit_xor-zero 0))
bit_xor-bound (suc k) a b p q = omega (
  arith,
  bit_xor_step a b,
  differ_bit a b,
  bit_xor-bound k (a / 2) (b / 2) (omega arith) (omega arith),
)

bit_xor-same_below : (k a b : ℕ) → a ≤ k → b ≤ k → bit_xor a b ≡ 0 → a ≡ b
bit_xor-same_below zero a b p q e = omega arith
bit_xor-same_below (suc k) a b p q e =
    let s = bit_xor_step a b in
    omega (
      arith,
      differ-same (a % 2) (b % 2) (omega arith),
      bit_xor-same_below k (a / 2) (b / 2) (omega arith) (omega arith) (omega arith),
    )

pub bit_xor-same : (a b : ℕ) → bit_xor a b ≡ 0 → a ≡ b
bit_xor-same a b e = bit_xor-same_below (a + b) a b (omega arith) (omega arith) e

pub bit_xor_parity : (a b : ℕ) → bit_xor a b % 2 ≡ (a + b) % 2
bit_xor_parity a b =
    omega (arith, bit_xor_step a b, differ_parity (a % 2) (b % 2) (omega arith) (omega arith))

pub bit_xor_half : (a b : ℕ) → bit_xor a b / 2 ≡ bit_xor (a / 2) (b / 2)
bit_xor_half a b = omega (arith, bit_xor_step a b, differ_bit a b)
