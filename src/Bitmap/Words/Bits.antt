-- ===== src/Bitmap/Words/Bits.antt =====
-- A slice of words as one long row of bits, and what the operations on one bit do to it.
use Prim.Native.Nat.{bit_and, bit_or}
use athera.Prelude.{
  ℕ, zero, suc, ◌*◌, ◌/◌, ◌%◌, ◌^◌, ◌≤◌, ◌<◌, ◌≡◌, ◌≢◌, refl, sym, ap, Bool, false, not, ◌&&◌, ◌||◌,
  List, [], ◌∷◌, length, get_or, set, ◌==◌, arith, length-set, ℕ_discrete,
}
use athera.Prelude.Bits.{
  bit_not, testbit, testbit-zero, testbit-bit_or, testbit-bit_and, testbit-bit_not, testbit-pow,
  bit_and_pow, pow-pos, pow-lt, bit_or-lt, bit_and-le,
}
use athera.Bitmap.Words.{is_bit_set, set_bit, clear_bit}

-- Bit `i` of the row.
unfoldable pub bit : List ℕ → ℕ → Bool
bit words i = testbit (get_or words (i / 64) 0) (i % 64)

-- Every word fits the machine.
unfoldable pub IsWords : List ℕ → Type 0
IsWords [] = 0 ≤ 0
IsWords (w ∷ ws) = (w < 2 ^ 64) × IsWords ws

get_or-lt : (ws : List ℕ) (k : ℕ) → IsWords ws → get_or ws k 0 < 2 ^ 64
unfolding IsWords
get_or-lt [] k h = omega arith
get_or-lt (w ∷ ws) zero h = h.0
get_or-lt (w ∷ ws) (suc k) h = get_or-lt ws k h.1

set-IsWords : (ws : List ℕ) (k v : ℕ) → IsWords ws → v < 2 ^ 64 → IsWords (set ws k v)
unfolding IsWords
set-IsWords [] k v h l = h
set-IsWords (w ∷ ws) zero v h l = (l, h.1)
set-IsWords (w ∷ ws) (suc k) v h l = (h.0, set-IsWords ws k v h.1 l)

get_or-set_self : (ws : List ℕ) (k v : ℕ) → k < length ws → get_or (set ws k v) k 0 ≡ v
get_or-set_self [] k v l = absurd (omega arith)
get_or-set_self (w ∷ ws) zero v l = refl
get_or-set_self (w ∷ ws) (suc k) v l = get_or-set_self ws k v (omega arith)

get_or-set_ne : (ws : List ℕ) (k j v : ℕ) → k ≢ j → get_or (set ws k v) j 0 ≡ get_or ws j 0
get_or-set_ne [] k j v h = refl
get_or-set_ne (w ∷ ws) zero zero v h = absurd (h refl)
get_or-set_ne (w ∷ ws) zero (suc j) v h = refl
get_or-set_ne (w ∷ ws) (suc k) zero v h = refl
get_or-set_ne (w ∷ ws) (suc k) (suc j) v h = get_or-set_ne ws k j v (λ e. h (ap suc e))

get_or_out : (ws : List ℕ) (k : ℕ) → length ws ≤ k → get_or ws k 0 ≡ 0
get_or_out [] k h = refl
get_or_out (w ∷ ws) zero h = absurd (omega arith)
get_or_out (w ∷ ws) (suc k) h = get_or_out ws k (omega arith)

pub bit_out : (ws : List ℕ) (i : ℕ) → 64 * length ws ≤ i → bit ws i ≡ false
unfolding bit
bit_out ws i h = rw (get_or_out ws (i / 64) (omega arith)) (testbit-zero (i % 64))

pub is_bit_set-bit : (ws : List ℕ) (i : ℕ) → is_bit_set ws i ≡ bit ws i
unfolding is_bit_set bit
is_bit_set-bit ws i = ground (arith, bit_and_pow (get_or ws (i / 64) 0) (i % 64), pow-pos (i % 64))

module _ (ws : List ℕ) (i : ℕ) (k : IsWords ws) where
  pub set_bit-IsWords : IsWords (set_bit ws i)
  unfolding set_bit
  set_bit-IsWords =
      set-IsWords ws (i / 64) _ k
        (bit_or-lt 64 _ _ (get_or-lt ws (i / 64) k) (pow-lt (i % 64) 64 (omega arith)))

  pub clear_bit-IsWords : IsWords (clear_bit ws i)
  unfolding clear_bit
  clear_bit-IsWords = set-IsWords ws (i / 64) _ k (
      omega (
        arith,
        bit_and-le (get_or ws (i / 64) 0) (bit_not 64 (2 ^ (i % 64))),
        get_or-lt ws (i / 64) k,
      ))

  pub length-set_bit : length (set_bit ws i) ≡ length ws
  unfolding set_bit
  length-set_bit = length-set ws (i / 64) _

  pub length-clear_bit : length (clear_bit ws i) ≡ length ws
  unfolding clear_bit
  length-clear_bit = length-set ws (i / 64) _

  module _ (l : i < 64 * length ws) (j : ℕ) where
    pub bit-set_bit : bit (set_bit ws i) j ≡ (bit ws j || i == j)
    unfolding bit set_bit
    bit-set_bit = elim (ℕ_discrete (i / 64) (j / 64)) [
      | yes e ↦
          let at =
            get_or-set_self ws (i / 64) (bit_or (get_or ws (i / 64) 0) (2 ^ (i % 64)))
              (omega arith) in
          rw
            (
              sym e,
              at,
              testbit-bit_or (get_or ws (i / 64) 0) (2 ^ (i % 64)) (j % 64),
              testbit-pow (i % 64) (j % 64),
            )
            (ground arith)
      | no e ↦
          rw (get_or-set_ne ws (i / 64) (j / 64) (bit_or (get_or ws (i / 64) 0) (2 ^ (i % 64))) e)
            (ground arith)
    ]

    pub bit-clear_bit : bit (clear_bit ws i) j ≡ (bit ws j && not (i == j))
    unfolding bit clear_bit
    bit-clear_bit = elim (ℕ_discrete (i / 64) (j / 64)) [
      | yes e ↦
          let at =
            get_or-set_self ws (i / 64) (bit_and (get_or ws (i / 64) 0) (bit_not 64 (2 ^ (i % 64))))
              (omega arith) in
          rw
            (
              sym e,
              at,
              testbit-bit_and (get_or ws (i / 64) 0) (bit_not 64 (2 ^ (i % 64))) (j % 64),
              testbit-bit_not 64 (2 ^ (i % 64)) (j % 64) (pow-lt (i % 64) 64 (omega arith))
                  (omega arith),
              testbit-pow (i % 64) (j % 64),
            )
            (ground arith)
      | no e ↦
          rw
            (get_or-set_ne ws (i / 64) (j / 64)
              (bit_and (get_or ws (i / 64) 0) (bit_not 64 (2 ^ (i % 64)))) e)
            (ground arith)
    ]
