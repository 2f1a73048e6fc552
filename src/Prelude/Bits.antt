-- ===== src/Prelude/Bits.antt =====
-- Machine words bit by bit: `&`, `|`, `!`, shifts of one and masks, read through `testbit`.
mod Step
pub mod Xor
pub mod Linear
use Step.{bit_and_step, bit_or_step, zero-bit_and, zero-bit_or}
use Prim.Native.Nat.{ℕ, zero, suc, ◌+◌, ◌-◌, ◌*◌, ◌/◌, ◌%◌, ◌^◌, ◌≤◌, ◌<◌, bit_and, bit_or}
use mathlib.Core.Path.{◌≡◌, refl, ap, ◌∙◌, sym}
use mathlib.Core.Bool.{Bool, true, false, not, ◌&&◌, ◌||◌}
use native.Mathlib.Omega.{arith}
use athera.Prelude.Tests.{ltb, ◌==◌, if◌then◌else◌}

-- Bit `i` of `w`.
unfoldable pub testbit : ℕ → ℕ → Bool
testbit w zero = w % 2 == 1
testbit w (suc i) = testbit (w / 2) i

-- `!w` on a word of `k` bits.
abbrev pub bit_not : ℕ → ℕ → ℕ
bit_not k w = 2 ^ k - 1 - w

pub testbit-zero : (i : ℕ) → testbit 0 i ≡ false
unfolding testbit
testbit-zero zero = refl
testbit-zero (suc i) = testbit-zero i

pub testbit-bit_or : (a b i : ℕ) → testbit (bit_or a b) i ≡ (testbit a i || testbit b i)
unfolding testbit
testbit-bit_or a b zero = ground (arith, bit_or_step a b)
testbit-bit_or a b (suc i) =
    let half : bit_or a b / 2 ≡ bit_or (a / 2) (b / 2) = omega (arith, bit_or_step a b) in
    rw half (testbit-bit_or (a / 2) (b / 2) i)

pub testbit-bit_and : (a b i : ℕ) → testbit (bit_and a b) i ≡ (testbit a i && testbit b i)
unfolding testbit
testbit-bit_and a b zero = ground (arith, bit_and_step a b)
testbit-bit_and a b (suc i) =
    let half : bit_and a b / 2 ≡ bit_and (a / 2) (b / 2) = omega (arith, bit_and_step a b) in
    rw half (testbit-bit_and (a / 2) (b / 2) i)

pub pow-pos : (k : ℕ) → 0 < 2 ^ k
pow-pos zero = omega arith
pow-pos (suc k) = omega (arith, pow-pos k)

pub testbit-bit_not : (k w i : ℕ) → w < 2 ^ k → i < k → testbit (bit_not k w) i ≡ not (testbit w i)
unfolding testbit
testbit-bit_not zero w i h l = elim l [ ]
testbit-bit_not (suc k) w zero h l = ground (arith, pow-pos k)
testbit-bit_not (suc k) w (suc i) h l =
    let half : bit_not (suc k) w / 2 ≡ bit_not k (w / 2) = omega (arith, pow-pos k) in
    rw half (testbit-bit_not k (w / 2) i (omega arith) (omega arith))

pub testbit-pow : (n i : ℕ) → testbit (2 ^ n) i ≡ (n == i)
unfolding testbit
testbit-pow zero zero = refl
testbit-pow zero (suc i) = rw (testbit-zero i) (ground arith)
testbit-pow (suc n) zero = ground (arith, pow-pos n)
testbit-pow (suc n) (suc i) =
    let half : 2 ^ suc n / 2 ≡ 2 ^ n = omega (arith) in rw half (testbit-pow n i ∙ ground arith)

-- The mask of the lowest `n` bits.
pub testbit-mask : (n i : ℕ) → testbit (2 ^ n - 1) i ≡ ltb i n
unfolding testbit
testbit-mask zero i = rw (testbit-zero i) (ground arith)
testbit-mask (suc n) zero = ground (arith, pow-pos n)
testbit-mask (suc n) (suc i) =
    let half : (2 ^ suc n - 1) / 2 ≡ 2 ^ n - 1 = omega (arith, pow-pos n) in
    rw half (testbit-mask n i ∙ ground arith)

pub testbit_high : (k w i : ℕ) → w < 2 ^ k → k ≤ i → testbit w i ≡ false
unfolding testbit
testbit_high zero w i h l = let e : w ≡ 0 = omega arith in rw e (testbit-zero i)
testbit_high (suc k) w zero h l = absurd (omega arith)
testbit_high (suc k) w (suc i) h l = testbit_high k (w / 2) i (omega arith) (omega arith)

lt-pow : (n : ℕ) → n < 2 ^ n
lt-pow zero = omega arith
lt-pow (suc n) = omega (arith, lt-pow n)

bit_and-zero_below : (k a : ℕ) → a < 2 ^ k → bit_and a 0 ≡ 0
bit_and-zero_below zero a h = let e : a ≡ 0 = omega arith in rw e (zero-bit_and 0)
bit_and-zero_below (suc k) a h =
    omega (arith, bit_and_step a 0, bit_and-zero_below k (a / 2) (omega arith))

pub bit_and-zero : (a : ℕ) → bit_and a 0 ≡ 0
bit_and-zero a = bit_and-zero_below a a (lt-pow a)

pub bit_and_pow : (w i : ℕ) → bit_and w (2 ^ i) ≡ (if testbit w i then 2 ^ i else 0)
unfolding testbit
bit_and_pow w zero = ground (arith, bit_and_step w 1, bit_and-zero (w / 2))
bit_and_pow w (suc i) =
    let half : 2 ^ suc i / 2 ≡ 2 ^ i = omega arith in
    ground (arith, bit_and_step w (2 ^ suc i), bit_and_pow (w / 2) i, half)

mod_twice : (w p : ℕ) → 0 < p → w % (2 * p) ≡ w / 2 % p * 2 + w % 2
mod_twice w p h = grind arith

mod_double : (w p q : ℕ) → 0 < p → q ≡ 2 * p → w % q ≡ w / 2 % p * 2 + w % 2
mod_double w p q h e = rw e (mod_twice w p h)

pub bit_and_mask : (n w : ℕ) → bit_and w (2 ^ n - 1) ≡ w % 2 ^ n
bit_and_mask zero w = omega (arith, bit_and-zero w)
bit_and_mask (suc n) w =
    let half : (2 ^ suc n - 1) / 2 ≡ 2 ^ n - 1 = omega (arith, pow-pos n) in
    let low : (2 ^ suc n - 1) % 2 ≡ 1 = omega (arith, pow-pos n) in
    let double : w % 2 ^ suc n ≡ w / 2 % 2 ^ n * 2 + w % 2 =
      mod_double w (2 ^ n) (2 ^ suc n) (pow-pos n) (omega arith) in
    rw double (ground (arith, bit_and_step w (2 ^ suc n - 1), bit_and_mask n (w / 2), half, low))

-- Clearing the bits of `m` leaves what `m` does not select.
pub bit_and-bit_not :
    (k a m : ℕ) → a < 2 ^ k → m < 2 ^ k → bit_and a (bit_not k m) + bit_and a m ≡ a
bit_and-bit_not zero a m h l =
    let e : a ≡ 0 = omega arith in rw e (omega (arith, zero-bit_and (bit_not 0 m), zero-bit_and m))
bit_and-bit_not (suc k) a m h l =
    let half : bit_not (suc k) m / 2 ≡ bit_not k (m / 2) = omega (arith, pow-pos k) in
    let low : bit_not (suc k) m % 2 ≡ 1 - m % 2 = omega (arith, pow-pos k) in
    ground (
      arith,
      half,
      low,
      bit_and_step a (bit_not (suc k) m),
      bit_and_step a m,
      bit_and-bit_not k (a / 2) (m / 2) (omega arith) (omega arith),
    )

pub bit_or-lt : (k a b : ℕ) → a < 2 ^ k → b < 2 ^ k → bit_or a b < 2 ^ k
bit_or-lt zero a b h l = let e : a ≡ 0 = omega arith in rw e (omega (arith, zero-bit_or b))
bit_or-lt (suc k) a b h l =
    omega (arith, bit_or_step a b, bit_or-lt k (a / 2) (b / 2) (omega arith) (omega arith))

pub bit_and-le : (a b : ℕ) → bit_and a b ≤ a
bit_and-le a b = below a a b (lt-pow a)
  where
    below : (k a b : ℕ) → a < 2 ^ k → bit_and a b ≤ a
    below zero a b h = let e : a ≡ 0 = omega arith in rw e (omega (arith, zero-bit_and b))
    below (suc k) a b h = omega (arith, bit_and_step a b, below k (a / 2) (b / 2) (omega arith))

pub pow-lt : (i k : ℕ) → i < k → 2 ^ i < 2 ^ k
pow-lt i zero h = elim h [ ]
pow-lt zero (suc k) h = omega (arith, pow-pos k)
pow-lt (suc i) (suc k) h = omega (arith, pow-lt i k (omega arith))

-- A word that has a bit is not zero.
pub testbit-pos : (w i : ℕ) → testbit w i ≡ true → 0 < w
unfolding testbit
testbit-pos w zero h = ground arith
testbit-pos w (suc i) h = omega (arith, testbit-pos (w / 2) i h)
