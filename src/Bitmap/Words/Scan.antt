-- ===== src/Bitmap/Words/Scan.antt =====
-- One word of the search in `scan_words`: masks and the lowest bit.
use Prim.Native.Nat.{bit_and, bit_or}
use athera.Prelude.{
  ℕ, zero, suc, ◌-◌, ◌/◌, ◌%◌, ◌^◌, ◌≤◌, ◌<◌, ◌≡◌, ◌≢◌, Option, none, some, Bool, true, false, not,
  ◌&&◌, ltb, leb, ◌==◌, if◌then◌else◌, arith, inl, inr, Bool-cases,
}
use athera.Prelude.Bits.{
  bit_not, testbit, testbit-bit_or, testbit-bit_and, testbit-bit_not, testbit-mask, pow-lt,
  bit_or-lt, bit_and-le,
}
use athera.Bitmap.Words.{trailing_zeros, masked}

-- A stored bit is wanted.
unfoldable pub wanted : Bool → Bool → Bool
wanted want_free b = if want_free then not b else b

-- The least `i` from `start` on and below `limit` that passes `p`, or that there is none.
pub data Finds (p : ℕ → Bool) (start limit : ℕ) : Option ℕ → Type 0 where
  nothing : ((i : ℕ) → start ≤ i → i < limit → p i ≡ false) → Finds p start limit none
  least :
      (i : ℕ)
      → start ≤ i
      → i < limit
      → p i ≡ true
      → ((j : ℕ) → start ≤ j → j < i → p j ≡ false)
      → Finds p start limit (some i)

-- The lowest bit of a word that is not zero.
pub record IsLowest (w k i : ℕ) : Type 0 where
  pub below : i < k
  pub is_set : testbit w i ≡ true
  pub first : (j : ℕ) → j < i → testbit w j ≡ false

pub trailing_zeros-IsLowest : (k w : ℕ) → w < 2 ^ k → w ≢ 0 → IsLowest w k (trailing_zeros k w)
unfolding trailing_zeros testbit
trailing_zeros-IsLowest zero w h ne = absurd (ne (omega arith))
trailing_zeros-IsLowest (suc k) w h ne = elim (Bool-cases (w % 2 == 1)) [
  | inl odd ↦
      rw odd (record { below = omega arith; is_set = odd; first = λ j l. absurd (omega arith) })
  | inr even ↦
      let r = trailing_zeros-IsLowest k (w / 2) (omega arith) (λ e. ne (ground arith)) in
      rw even (record { below = omega (arith, r.below); is_set = r.is_set; first = lower r even })
]
  where
    lower :
        IsLowest (w / 2) k (trailing_zeros k (w / 2))
        → (w % 2 == 1) ≡ false
        → (j : ℕ) → j < suc (trailing_zeros k (w / 2))
        → testbit w j ≡ false
    lower r even zero l = even
    lower r even (suc j) l = r.first j (omega arith)

pub is_zero-no : (v : ℕ) → v ≢ 0 → (v == 0) ≡ false
is_zero-no v ne = ground arith

-- Where a word of the search ends: the last one at the number of bits in use.
unfoldable pub word_end : ℕ → Bool → ℕ
word_end bits is_last = if is_last && not (bits % 64 == 0) then bits % 64 else 64

module _ (bits : ℕ) (want_free : Bool) where
  pub masked-lt :
      (low : ℕ) (is_last : Bool) (w : ℕ) → w < 2 ^ 64 → masked bits want_free low is_last w < 2 ^ 64
  unfolding masked
  masked-lt low is_last w h = ground (
    arith,
    bit_and-le w (bit_not 64 low),
    bit_and-le (bit_and w (bit_not 64 low)) (2 ^ (bits % 64) - 1),
    bit_and-le (bit_not 64 (bit_or w low)) (2 ^ (bits % 64) - 1),
  )

  pub testbit-masked :
      (s : ℕ) (is_last : Bool) (w j : ℕ)
      → w < 2 ^ 64
      → s < 64
      → j < 64
      → testbit (masked bits want_free (2 ^ s - 1) is_last w) j
        ≡ (wanted want_free (testbit w j) && (leb s j && ltb j (word_end bits is_last)))
  unfolding masked wanted word_end
  testbit-masked s is_last w j h l m =
      let small : 2 ^ s - 1 < 2 ^ 64 = omega (arith, pow-lt s 64 l) in
      ground (
        arith,
        testbit-mask s j,
        testbit-mask (bits % 64) j,
        testbit-bit_or w (2 ^ s - 1) j,
        testbit-bit_not 64 (bit_or w (2 ^ s - 1)) j (bit_or-lt 64 w (2 ^ s - 1) h small) m,
        testbit-bit_not 64 (2 ^ s - 1) j small m,
        testbit-bit_and w (bit_not 64 (2 ^ s - 1)) j,
        testbit-bit_and (bit_and w (bit_not 64 (2 ^ s - 1))) (2 ^ (bits % 64) - 1) j,
        testbit-bit_and (bit_not 64 (bit_or w (2 ^ s - 1))) (2 ^ (bits % 64) - 1) j,
      )
