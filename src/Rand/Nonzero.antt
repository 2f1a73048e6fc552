-- ===== src/Rand/Nonzero.antt =====
-- The states of XoShiro256StarStar of src/crates/athera-rand from `seed` on, and all zero, the state
-- that `step` never leaves.
use Prim.Native.Nat.{bit_xor}
use athera.Prelude.{
  ℕ, zero, suc, ◌*◌, ◌/◌, ◌%◌, ◌^◌, ◌<◌, ◌≡◌, ◌≢◌, refl, sym, ap, subst, ◌∙◌, arith,
}
use athera.Prelude.Bits.Xor.{bit_xor-zero, bit_xor-bound, bit_xor-same}
use athera.Rand.{
  XoShiro256StarStar, rotate_left, splitmix64, mix, seed, advance, step, new, after, wrapping_mul,
  wrapping_add,
}

-- The four words are words of 64 bits.
pub record Words (s : XoShiro256StarStar) : Type 0 where
  pub s0 : s.s0 < 2 ^ 64
  pub s1 : s.s1 < 2 ^ 64
  pub s2 : s.s2 < 2 ^ 64
  pub s3 : s.s3 < 2 ^ 64

-- All four words are zero.
record AllZero (s : XoShiro256StarStar) : Type 0 where
  s0 : s.s0 ≡ 0
  s1 : s.s1 ≡ 0
  s2 : s.s2 ≡ 0
  s3 : s.s3 ≡ 0

first_factor : (a : ℕ) → a < 2 ^ 64 → wrapping_mul a 13787848793156543929 ≡ 0 → a ≡ 0
first_factor a p e = omega arith

second_factor : (a : ℕ) → a < 2 ^ 64 → wrapping_mul a 10723151780598845931 ≡ 0 → a ≡ 0
second_factor a p e = omega arith

rotate_left-zero : (x : ℕ) → x < 2 ^ 64 → rotate_left x 45 ≡ 0 → x ≡ 0
unfolding rotate_left
rotate_left-zero x p e = omega arith

rotate_left-below : (x : ℕ) → x < 2 ^ 64 → rotate_left x 45 < 2 ^ 64
unfolding rotate_left
rotate_left-below x p = omega arith

shift_fixed : (x : ℕ) → x < 2 ^ 64 → x ≡ x * 2 ^ 17 % 2 ^ 64 → x ≡ 0
shift_fixed x p e = omega arith

-- A word whose `z ^ (z >> k)` is zero is zero.
fold_30_zero : (z : ℕ) → bit_xor z (z / 2 ^ 30) ≡ 0 → z ≡ 0
fold_30_zero z e = omega (arith, bit_xor-same z (z / 2 ^ 30) e)

fold_27_zero : (z : ℕ) → bit_xor z (z / 2 ^ 27) ≡ 0 → z ≡ 0
fold_27_zero z e = omega (arith, bit_xor-same z (z / 2 ^ 27) e)

fold_31_zero : (z : ℕ) → bit_xor z (z / 2 ^ 31) ≡ 0 → z ≡ 0
fold_31_zero z e = omega (arith, bit_xor-same z (z / 2 ^ 31) e)

wrapping_mul-below : (a b : ℕ) → wrapping_mul a b < 2 ^ 64
wrapping_mul-below a b = omega arith

mix-below : (state : ℕ) → mix state < 2 ^ 64
unfolding mix
mix-below state =
    let z = wrapping_mul (bit_xor state (state / 2 ^ 30)) 13787848793156543929 in
    let y = wrapping_mul (bit_xor z (z / 2 ^ 27)) 10723151780598845931 in
    let p = wrapping_mul-below (bit_xor z (z / 2 ^ 27)) 10723151780598845931 in
    bit_xor-bound 64 y (y / 2 ^ 31) p (omega arith)

mix-zero : (state : ℕ) → state < 2 ^ 64 → mix state ≡ 0 → state ≡ 0
unfolding mix
mix-zero state p e =
    let w = bit_xor state (state / 2 ^ 30) in
    let z = wrapping_mul w 13787848793156543929 in
    let v = bit_xor z (z / 2 ^ 27) in
    let y = wrapping_mul v 10723151780598845931 in
    let below = wrapping_mul-below w 13787848793156543929 in
    let z_zero =
      fold_27_zero z (
        second_factor v (bit_xor-bound 64 z (z / 2 ^ 27) below (omega arith)) (fold_31_zero y e)) in
    fold_30_zero state
      (first_factor w (bit_xor-bound 64 state (state / 2 ^ 30) p (omega arith)) z_zero)

seed-Words : (n : ℕ) → Words (seed n)
unfolding seed splitmix64
seed-Words n =
    let first = wrapping_add n 11400714819323198485 in
    let second = wrapping_add first 11400714819323198485 in
    let third = wrapping_add second 11400714819323198485 in
    record {
      s0 = mix-below first;
      s1 = mix-below second;
      s2 = mix-below third;
      s3 = mix-below (wrapping_add third 11400714819323198485);
    }

seed-nonzero : (n : ℕ) → ¬ AllZero (seed n)
unfolding seed splitmix64
seed-nonzero n z =
    let first = wrapping_add n 11400714819323198485 in
    let second = wrapping_add first 11400714819323198485 in
    let p = mix-zero first (omega arith) (z.s0) in
    let q = mix-zero second (omega arith) (z.s1) in omega arith

pub advance-Words : (s : XoShiro256StarStar) → Words s → Words (advance s)
unfolding advance
advance-Words s w =
    let t = s.s1 * 2 ^ 17 % 2 ^ 64 in
    let s2 = bit_xor s.s2 s.s0 in
    let s3 = bit_xor s.s3 s.s1 in
    let p2 = bit_xor-bound 64 (s.s2) (s.s0) (w.s2) (w.s0) in
    let p3 = bit_xor-bound 64 (s.s3) (s.s1) (w.s3) (w.s1) in
    record {
      s0 = bit_xor-bound 64 (s.s0) s3 (w.s0) p3;
      s1 = bit_xor-bound 64 (s.s1) s2 (w.s1) p2;
      s2 = bit_xor-bound 64 s2 t p2 (omega arith);
      s3 = rotate_left-below s3 p3;
    }

-- `step` reaches all zero only from all zero.
advance-AllZero : (s : XoShiro256StarStar) → Words s → AllZero (advance s) → AllZero s
unfolding advance
advance-AllZero s w z =
    let s2 = bit_xor s.s2 s.s0 in
    let s3 = bit_xor s.s3 s.s1 in
    let t = s.s1 * 2 ^ 17 % 2 ^ 64 in
    let high = rotate_left-zero s3 (bit_xor-bound 64 (s.s3) (s.s1) (w.s3) (w.s1)) (z.s3) in
    let s0_zero : s.s0 ≡ 0 = bit_xor-same (s.s0) s3 (z.s0) ∙ high in
    let middle : s2 ≡ s.s2 = ap (bit_xor s.s2) s0_zero ∙ bit_xor-zero (s.s2) in
    let s1_s2 : s.s1 ≡ s2 = bit_xor-same (s.s1) s2 (z.s1) in
    let shifted : s2 ≡ t = bit_xor-same s2 t (z.s2) in
    let s1_zero = shift_fixed (s.s1) (w.s1) (s1_s2 ∙ shifted) in
    record {
      s0 = s0_zero;
      s1 = s1_zero;
      s2 = sym middle ∙ sym s1_s2 ∙ s1_zero;
      s3 = bit_xor-same (s.s3) (s.s1) high ∙ s1_zero;
    }

after-AllZero : (k : ℕ) (s : XoShiro256StarStar) → Words s → AllZero (after k s) → AllZero s
unfolding after step
after-AllZero zero s w z = z
after-AllZero (suc k) s w z =
    advance-AllZero s w (after-AllZero k (advance s) (advance-Words s w) z)

-- Whatever the seed, no number of steps makes the four words of the state all zero.
pub after-seed-nonzero : (n k : ℕ) → after k (seed n) ≢ new
after-seed-nonzero n k e =
    let z : AllZero new = record { s0 = refl; s1 = refl; s2 = refl; s3 = refl } in
    seed-nonzero n (after-AllZero k (seed n) (seed-Words n) (subst AllZero (sym e) z))
