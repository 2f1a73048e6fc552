-- ===== src/IdAlloc/Flat/Aligned.antt =====
-- `find_aligned_block` finds an aligned block inside an interval whenever there is one.
use Prim.Native.Nat.{bit_and}
use athera.Prelude.{
  ℕ, zero, suc, ◌+◌, ◌-◌, ◌*◌, ◌/◌, ◌%◌, ◌^◌, ◌≤◌, ◌<◌, ◌≡◌, refl, ap, true, false, leb,
  if◌then◌else◌, arith, none, some, inl, inr, Bool-cases,
}
use native.Mathlib.Nat.{div-add-mod, mul-mod_right, div-lt_iff_lt-mul, mod-eq_of_lt}
use athera.Prelude.Bits.{bit_not, bit_and-bit_not, bit_and_mask, pow-pos, pow-lt}
use athera.Prelude.BTreeMap.{empty, entry}
use athera.IdAlloc.Id.{low_mask, block_size, wrapping_add, from_bits, id_max}
use athera.IdAlloc.Ranges.{Ranges}
use athera.IdAlloc.Ranges.Spec.{IsRanges}
use athera.IdAlloc.Ranges.Cut.{holds}
use athera.IdAlloc.Flat.{find_aligned}

pub low_mask_lem : (n : ℕ) → n < 128 → low_mask n ≡ 2 ^ n - 1
unfolding low_mask
low_mask_lem zero h = refl
low_mask_lem (suc n) h = ground arith

pub block_size_lem : (n : ℕ) → n < 128 → block_size n ≡ 2 ^ n
unfolding block_size
block_size_lem zero h = refl
block_size_lem (suc n) h = ground arith

-- Clearing the low `n` bits rounds down to a multiple of `2 ^ n`.
pub round_down :
    (n x : ℕ) → n < 128 → x < 2 ^ 128 → bit_and x (bit_not 128 (low_mask n)) ≡ x - x % 2 ^ n
round_down n x h l = rw (low_mask_lem n h) (
    omega (
      arith,
      bit_and-bit_not 128 x (2 ^ n - 1) l (omega (arith, pow-lt n 128 h)),
      bit_and_mask n x,
    ))

-- The least multiple of `2 ^ n` that is not below `s`.
round_up : (p s : ℕ) → 0 < p → (s ≤ (s + (p - 1)) - (s + (p - 1)) % p)
round_up p s h = omega (arith)

pub round_down_mod : (p x : ℕ) → (x - x % p) % p ≡ 0
round_down_mod p x =
    let e : x - x % p ≡ p * (x / p) = omega (arith, div-add-mod x p) in
    rw e (mul-mod_right p (x / p))

round_up_least : (p s b : ℕ) → 0 < p → b % p ≡ 0 → s ≤ b → (s + (p - 1)) - (s + (p - 1)) % p ≤ b
round_up_least p s b h m l =
    let x = s + (p - 1) in
    let whole : b ≡ p * (b / p) = omega (arith, div-add-mod b p) in
    let room : x < (b / p + 1) * p = omega (arith, whole) in
    let le : x / p ≤ b / p = omega (arith, (div-lt_iff_lt-mul {x = x} {y = b / p + 1} h).1 room) in
    let scaled : p * (x / p) ≤ p * (b / p) = grind arith in omega (arith, div-add-mod x p, whole)

module _ (w n : ℕ) (small : n < 127) (narrow : w < 127) where
  aligned_lem :
      (s : ℕ)
      → s ≤ id_max w
      → bit_and (wrapping_add s (low_mask n)) (bit_not 128 (low_mask n))
        ≡ (s + (2 ^ n - 1)) - (s + (2 ^ n - 1)) % 2 ^ n
  aligned_lem s h =
      let sum : s + (2 ^ n - 1) < 2 ^ 128 =
        omega (arith, pow-lt w 127 narrow, pow-lt n 127 small, pow-pos w) in
      let add : wrapping_add s (low_mask n) ≡ s + (2 ^ n - 1) =
        rw (low_mask_lem n (omega arith)) (mod-eq_of_lt sum) in
      rw add (round_down n (s + (2 ^ n - 1)) (omega arith) sum)

  step :
      (s e : ℕ) (m : Ranges)
      → s ≤ id_max w
      → e ≤ id_max w
      → find_aligned w (low_mask n) (block_size n) (entry s e m) ≡ (
          let base = (s + (2 ^ n - 1)) - (s + (2 ^ n - 1)) % 2 ^ n in
          if leb (base + 2 ^ n) e then some base else find_aligned w (low_mask n) (block_size n) m)
  unfolding find_aligned
  step s e m h k =
      let base = (s + (2 ^ n - 1)) - (s + (2 ^ n - 1)) % 2 ^ n in
      let fits : base + 2 ^ n ≤ e → from_bits w base ≡ base =
        λ l. mod-eq_of_lt (omega (arith, pow-pos w, pow-pos n)) in
      rw (aligned_lem s h, block_size_lem n (omega arith))
        (elim (Bool-cases (leb (base + 2 ^ n) e)) [
          | inl l ↦ rw (l, fits (ground arith))
          | inr l ↦
              rw l (ap (λ b. find_aligned w (low_mask n) b m) (block_size_lem n (omega arith)))
        ])

  -- What the search over the table returns.
  pub find_aligned-some :
      (lo hi base : ℕ) (m : Ranges)
      → IsRanges lo hi m
      → hi ≤ id_max w
      → find_aligned w (low_mask n) (block_size n) m ≡ some base
      → (base % 2 ^ n ≡ 0) × (holds base (base + 2 ^ n) m ≡ true)
  unfolding holds
  find_aligned-some lo hi base empty r h e = unfold find_aligned in absurd (cc e)
  find_aligned-some lo hi base (entry s e m) r h q = ground (
    arith,
    step s e m (omega arith) (omega arith),
    round_down_mod (2 ^ n) (s + (2 ^ n - 1)),
    round_up (2 ^ n) s (pow-pos n),
    find_aligned-some (e + 1) hi base m r.3 h,
  )

  -- When it returns nothing, no interval holds an aligned block.
  pub find_aligned-none :
      (lo hi base : ℕ) (m : Ranges)
      → IsRanges lo hi m
      → hi ≤ id_max w
      → find_aligned w (low_mask n) (block_size n) m ≡ none
      → base % 2 ^ n ≡ 0
      → holds base (base + 2 ^ n) m ≡ false
  unfolding holds
  find_aligned-none lo hi base empty r h e a = refl
  find_aligned-none lo hi base (entry s e m) r h q a = ground (
    arith,
    step s e m (omega arith) (omega arith),
    round_up_least (2 ^ n) s base (pow-pos n) a,
    find_aligned-none (e + 1) hi base m r.3 h,
  )
