-- ===== src/Buddy/Pairs.antt =====
-- A block and its buddy: the address with one bit turned over is the other half of a larger block.
use athera.Prelude.{
  ℕ, zero, suc, ◌+◌, ◌*◌, ◌<◌, ◌≡◌, refl, sym, ap, subst, ◌∙◌, true, false, ltb, if◌then◌else◌,
  arith, inl, inr, ◌⊎◌,
}
use athera.Prelude.Bits.{pow-pos}
use athera.Prelude.Bits.Xor.{bit_xor_even, bit_xor_odd}
use athera.Buddy.{order_size, buddy_address}
use athera.Buddy.Cover.{within, order_size-suc, order_size-pow, within-halves}

-- `start` is a multiple of the size of the order.
abbrev pub IsAligned : ℕ → ℕ → Type 0
IsAligned start order = (q : ℕ) × (start ≡ q * order_size order)

half : (q : ℕ) → (r : ℕ) × ((q ≡ 2 * r) ⊎ (q ≡ 2 * r + 1))
half zero = (0, inl refl)
half (suc q) =
    let (r, h) = half q in
    elim h [ inl e ↦ (r, inr (omega arith)) | inr e ↦ (suc r, inl (omega arith)) ]

-- A block and its buddy are the two halves of the block of the next order at `lower`.
pub record Pairs (ptr order lower : ℕ) : Type 0 where
  pub aligned : IsAligned lower (suc order)
  pub together :
      (a : ℕ)
      → within a ptr (order_size order) + within a (buddy_address ptr order) (order_size order)
        ≡ within a lower (order_size (suc order))

pub size-pos : (order : ℕ) → 0 < order_size order
size-pos order = omega (arith, order_size-pow order, pow-pos (order + 12))

buddy_even :
    (r order : ℕ)
    → buddy_address (2 * r * order_size order) order ≡ 2 * r * order_size order + order_size order
unfolding buddy_address
buddy_even r order = rw (order_size-pow order) (bit_xor_even (order + 12) r)

buddy_odd :
    (r order : ℕ) → buddy_address ((2 * r + 1) * order_size order) order ≡ 2 * r * order_size order
unfolding buddy_address
buddy_odd r order = rw (order_size-pow order) (bit_xor_odd (order + 12) r)

abbrev pub lower_of : ℕ → ℕ → ℕ
lower_of ptr order = if ltb (buddy_address ptr order) ptr then buddy_address ptr order else ptr

twice : (r s : ℕ) → 2 * r * s ≡ r * (s + s)
twice r s = grind arith

even_Pairs :
    (r order : ℕ)
    → Pairs (2 * r * order_size order) order (lower_of (2 * r * order_size order) order)
even_Pairs r order =
    let s : ℕ = order_size order in
    let up = buddy_even r order in
    let not_below : ltb (buddy_address (2 * r * order_size order) order) (2 * r * order_size order)
        ≡ false =
      ground (arith, up) in
    rw not_below (record {
      aligned = (r, twice r (order_size order) ∙ ap (λ n. r * n) (sym (order_size-suc order)));
      together = λ a.
          rw (up, order_size-suc order)
            (sym (within-halves a (2 * r * order_size order) (order_size order)));
    })

odd_Pairs :
    (r order : ℕ)
    → Pairs ((2 * r + 1) * order_size order) order (lower_of ((2 * r + 1) * order_size order) order)
odd_Pairs r order =
    let down = buddy_odd r order in
    let sum : (2 * r + 1) * order_size order ≡ 2 * r * order_size order + order_size order =
      grind arith in
    let below : ltb (buddy_address ((2 * r + 1) * order_size order) order)
          ((2 * r + 1) * order_size order)
        ≡ true =
      ground (arith, down, sum, size-pos order) in
    rw below (record {
      aligned =
          (r, down ∙ twice r (order_size order) ∙ ap (λ n. r * n) (sym (order_size-suc order)));
      together = λ a.
          let halves = within-halves a (2 * r * order_size order) (order_size order) in
          rw (down, order_size-suc order)
            (omega (arith, halves, ap (λ p. within a p (order_size order)) sum));
    })

pub buddy-Pairs : (ptr order : ℕ) → IsAligned ptr order → Pairs ptr order (lower_of ptr order)
buddy-Pairs ptr order (q, e) =
    let (r, h) = half q in
    elim h [
      | inl even ↦
          let at : 2 * r * order_size order ≡ ptr =
            ap (λ n. n * order_size order) (sym even) ∙ sym e in
          subst (λ p. Pairs p order (lower_of p order)) at (even_Pairs r order)
      | inr odd ↦
          let at : (2 * r + 1) * order_size order ≡ ptr =
            ap (λ n. n * order_size order) (sym odd) ∙ sym e in
          subst (λ p. Pairs p order (lower_of p order)) at (odd_Pairs r order)
    ]
