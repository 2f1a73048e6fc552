-- ===== src/IdAlloc/Major/Blocks.antt =====
-- The aligned block that holds an ID: `token_base` and `block_end` as arithmetic.
use Prim.Native.Nat.{bit_and}
use native.Mathlib.Nat.{div-add-mod, mod-eq_of_lt, mul-add-mod_self_left}
use athera.Prelude.{
  ℕ, ◌+◌, ◌-◌, ◌*◌, ◌/◌, ◌%◌, ◌^◌, ◌≤◌, ◌<◌, ◌≡◌, ap, ◌∙◌, ◌==◌, arith, Bool-cases, inl, inr,
}
use athera.Prelude.Bits.{pow-pos, pow-lt, bit_and_mask}
use athera.IdAlloc.Id.{id_max, from_bits, low_mask}
use athera.IdAlloc.Flat.Blocks.{within}
use athera.IdAlloc.Flat.Aligned.{low_mask_lem, block_size_lem, round_down, round_down_mod}
use athera.IdAlloc.Major.{token_base, block_end}

-- The base of the block of `id`.
abbrev pub base_of : ℕ → ℕ → ℕ
base_of n id = id - id % 2 ^ n

aligned_add : (p base r : ℕ) → base % p ≡ 0 → r < p → (base + r) % p ≡ r
aligned_add p base r h l =
    let whole : base ≡ p * (base / p) = omega (arith, div-add-mod base p) in
    rw whole (mul-add-mod_self_left p (base / p) r ∙ mod-eq_of_lt l)

pub within_lem :
    (n base i : ℕ) → base % 2 ^ n ≡ 0 → within base (base + 2 ^ n) i ≡ (base_of n i == base)
within_lem n base i h = elim (Bool-cases (within base (base + 2 ^ n) i)) [
  | inl inside ↦ ground (arith, aligned_add (2 ^ n) base (i - base) h)
  | inr outside ↦ ground (arith, pow-pos n)
]

base_of_aligned : (n i : ℕ) → base_of n i % 2 ^ n ≡ 0
base_of_aligned n i = round_down_mod (2 ^ n) i

module _ (w n : ℕ) (lt : n < w) (narrow : w < 127) where
  pub token_base_lem : (id : ℕ) → id ≤ id_max w → token_base w n id ≡ base_of n id
  unfolding token_base
  token_base_lem id h =
      let bound = pow-lt w 127 narrow in
      rw (round_down n id (omega arith) (omega (arith, bound, pow-pos w)))
        (mod-eq_of_lt (omega (arith, pow-pos w)))

  pub block_end_lem : (base : ℕ) → base + 2 ^ n ≤ id_max w → block_end w n base ≡ base + 2 ^ n
  unfolding block_end
  block_end_lem base h =
      let bound = pow-lt w 127 narrow in
      let total : base + 2 ^ n < 2 ^ w = omega (arith, pow-pos w) in
      let wide : base + 2 ^ n < 2 ^ 128 = omega (arith, bound) in
      rw (block_size_lem n (omega arith))
        (ap (from_bits w) (mod-eq_of_lt wide) ∙ mod-eq_of_lt total)

  pub aligned_test : (base : ℕ) → bit_and base (low_mask n) ≡ base % 2 ^ n
  aligned_test base = rw (low_mask_lem n (omega arith)) (bit_and_mask n base)
