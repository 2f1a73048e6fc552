-- ===== src/Prelude/Bits/Linear.antt =====
-- `^` with itself, and on the high and the low digits of a number.
use athera.Prelude.Bits.Xor.{bit_xor_parity, bit_xor_half}
use Prim.Native.Nat.{ℕ, zero, suc, ◌+◌, ◌*◌, ◌/◌, ◌^◌, ◌≤◌, ◌<◌, bit_xor}
use mathlib.Core.Path.{◌≡◌, refl, ◌∙◌}
use native.Mathlib.Nat.{mul_assoc}
use native.Mathlib.Omega.{arith}

exchange_below :
    (n a b c d : ℕ)
    → a + b + c + d ≤ n
    → bit_xor (bit_xor a b) (bit_xor c d) ≡ bit_xor (bit_xor a c) (bit_xor b d)
exchange_below zero a b c d p =
    let a_zero : a ≡ 0 = omega arith in
    let b_zero : b ≡ 0 = omega arith in
    let c_zero : c ≡ 0 = omega arith in
    let d_zero : d ≡ 0 = omega arith in rw (a_zero, b_zero, c_zero, d_zero) refl
exchange_below (suc n) a b c d p =
    let left : bit_xor (bit_xor a b) (bit_xor c d) / 2
        ≡ bit_xor (bit_xor (a / 2) (b / 2)) (bit_xor (c / 2) (d / 2)) =
      rw (bit_xor_half (bit_xor a b) (bit_xor c d), bit_xor_half a b, bit_xor_half c d) refl in
    let right : bit_xor (bit_xor a c) (bit_xor b d) / 2
        ≡ bit_xor (bit_xor (a / 2) (c / 2)) (bit_xor (b / 2) (d / 2)) =
      rw (bit_xor_half (bit_xor a c) (bit_xor b d), bit_xor_half a c, bit_xor_half b d) refl in
    let rest = exchange_below n (a / 2) (b / 2) (c / 2) (d / 2) (omega arith) in
    omega (
      arith,
      left,
      right,
      rest,
      bit_xor_parity (bit_xor a b) (bit_xor c d),
      bit_xor_parity (bit_xor a c) (bit_xor b d),
      bit_xor_parity a b,
      bit_xor_parity c d,
      bit_xor_parity a c,
      bit_xor_parity b d,
    )

pub bit_xor_exchange :
    (a b c d : ℕ) → bit_xor (bit_xor a b) (bit_xor c d) ≡ bit_xor (bit_xor a c) (bit_xor b d)
bit_xor_exchange a b c d = exchange_below (a + b + c + d) a b c d (omega arith)

doubled : (k a : ℕ) → 2 ^ suc k * a ≡ 2 * (2 ^ k * a)
doubled k a = let power : 2 ^ suc k ≡ 2 * 2 ^ k = omega arith in rw power (mul_assoc 2 (2 ^ k) a)

-- High and low digits apart.
pub bit_xor_join :
    (k a b l m : ℕ)
    → l < 2 ^ k
    → m < 2 ^ k
    → bit_xor (2 ^ k * a + l) (2 ^ k * b + m) ≡ 2 ^ k * bit_xor a b + bit_xor l m
bit_xor_join zero a b l m p q =
    let l_zero : l ≡ 0 = omega arith in
    let m_zero : m ≡ 0 = omega arith in
    let left : 1 * a + 0 ≡ a = omega arith in
    let right : 1 * b + 0 ≡ b = omega arith in rw (l_zero, m_zero, left, right) (omega arith)
bit_xor_join (suc k) a b l m p q =
    let x = 2 ^ suc k * a + l in
    let y = 2 ^ suc k * b + m in
    let high = doubled k a in
    let high' = doubled k b in
    let both = doubled k (bit_xor a b) in
    let left : x / 2 ≡ 2 ^ k * a + l / 2 = omega arith in
    let right : y / 2 ≡ 2 ^ k * b + m / 2 = omega arith in
    let half : bit_xor x y / 2 ≡ bit_xor (2 ^ k * a + l / 2) (2 ^ k * b + m / 2) =
      bit_xor_half x y ∙ rw (left, right) refl in
    omega (
      arith,
      half,
      bit_xor_join k a b (l / 2) (m / 2) (omega arith) (omega arith),
      bit_xor_parity x y,
      bit_xor_parity l m,
      bit_xor_half l m,
    )
