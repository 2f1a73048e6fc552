-- ===== src/Prelude/Bits/Step.antt =====
-- One binary digit of `bit_and`, `bit_or` and `bit_xor`: the native operations mean a recursion on
-- digits with fuel, and this takes the fuel away.
use Prim.Native.Nat.{
  ℕ, zero, suc, ◌+◌, ◌-◌, ◌*◌, ◌/◌, ◌%◌, ◌≤◌, min, max, bit_and, bit_or, bit_xor, digits, bitwise,
  bit_and-bitwise, bit_or-bitwise, bit_xor-bitwise, differ,
}
use mathlib.Core.Path.{◌≡◌, refl, ap}
use native.Mathlib.Omega.{arith}

-- A digit operation `f` with `unit` for an exhausted left side. Fuel beyond the number is idle.
module _ (unit : ℕ → ℕ) (f : ℕ → ℕ → ℕ) where
  idle : (k a b : ℕ) → digits unit f k zero b ≡ unit b
  idle zero a b = refl
  idle (suc k) a b = refl

  spare : (n k a b : ℕ) → a ≤ n → digits unit f (k + n) a b ≡ digits unit f n a b
  spare n k zero b p = omega (arith, idle (k + n) 0 b, idle n 0 b)
  spare zero k (suc a) b p = absurd (omega arith)
  spare (suc n) k (suc a) b p =
      let more : k + suc n ≡ suc (k + n) = omega arith in
      rw more (omega (arith, spare n k (suc a / 2) (b / 2) (omega arith)))

  lowest :
      (a b : ℕ)
      → bitwise unit f (suc a) b ≡ f (suc a % 2) (b % 2) + 2 * bitwise unit f (suc a / 2) (b / 2)
  lowest a b =
      let fuel : a ≡ a - suc a / 2 + suc a / 2 = omega arith in
      let same = spare (suc a / 2) (a - suc a / 2) (suc a / 2) (b / 2) (omega arith) in
      omega (arith, ap (λ n. digits unit f n (suc a / 2) (b / 2)) fuel, same)

pub bit_xor_step : (a b : ℕ) → bit_xor a b ≡ differ (a % 2) (b % 2) + 2 * bit_xor (a / 2) (b / 2)
bit_xor_step zero b = simp bit_xor-bitwise (omega arith)
bit_xor_step (suc a) b = simp bit_xor-bitwise (lowest (λ y. y) differ a b)

pub zero-bit_or : (b : ℕ) → bit_or 0 b ≡ b
zero-bit_or b = bit_or-bitwise 0 b

pub bit_or_step : (a b : ℕ) → bit_or a b ≡ max (a % 2) (b % 2) + 2 * bit_or (a / 2) (b / 2)
bit_or_step zero b = omega (arith, zero-bit_or b, zero-bit_or (b / 2))
bit_or_step (suc a) b = simp bit_or-bitwise (lowest (λ y. y) max a b)

pub zero-bit_and : (b : ℕ) → bit_and 0 b ≡ 0
zero-bit_and b = bit_and-bitwise 0 b

pub bit_and_step : (a b : ℕ) → bit_and a b ≡ min (a % 2) (b % 2) + 2 * bit_and (a / 2) (b / 2)
bit_and_step zero b = omega (arith, zero-bit_and b, zero-bit_and (b / 2))
bit_and_step (suc a) b = simp bit_and-bitwise (lowest (λ _. 0) min a b)
