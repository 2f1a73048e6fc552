-- ===== src/Bitmap/Map/Alloc.antt =====
-- `alloc` and `alloc_from`: the least clear bit, by the word-wise search.
use athera.Prelude.{
  ℕ, ◌≤◌, ◌<◌, ◌≡◌, ◌≢◌, Option, none, some, true, ltb, ◌==◌, arith, inl, inr, Bool-cases, ltb→lt,
}
use athera.Prelude.Count.{count-le}
use athera.Bitmap.Words.{}
use athera.Bitmap.Words.Bits.{bit}
use athera.Bitmap.Words.Count.{}
use athera.Bitmap.Words.Scan.{wanted, Finds}
use athera.Bitmap.Words.Search.{IsTight, reach, bits-le-reach, scan_words-reach, scan_words-Finds}
use athera.Bitmap.Map.{BitMap, alloc, alloc_from, find_free_from, occupy}
use athera.Bitmap.Map.Valid.{IsValid, Takes, full_map, not_full}
use athera.Bitmap.Map.Ops.{Takes-one}

-- The answers of `alloc` and, from bit `start` on, of `alloc_from`.
pub data Occupies (m : BitMap) (start : ℕ) : BitMap × Option ℕ → Type 0 where
  full : ((i : ℕ) → start ≤ i → i < m.bits → bit m.words i ≡ true) → Occupies m start (m, none)
  least :
      (index : ℕ) (m' : BitMap)
      → start ≤ index
      → ((i : ℕ) → start ≤ i → i < index → bit m.words i ≡ true)
      → Takes m index 1 m'
      → Occupies m start (m', some index)

module _ (m : BitMap) (v : IsValid m) where
  -- A search answer that keeps below the capacity, and the map it leaves.
  occupy-Occupies :
      (start : ℕ) (r : Option ℕ)
      → Finds (λ i. wanted true (bit m.words i)) start m.bits r
      → Occupies m start (occupy m r)
  unfolding occupy wanted
  occupy-Occupies start _ (Finds.nothing h) = Occupies.full (λ i a b. ground (arith, h i a b))
  occupy-Occupies start _ (Finds.least i a b c h) =
      Occupies.least i _ a (λ j d e. ground (arith, h j d e))
        (Takes-one m v i b (ground (arith, c)))

  at_capacity : (m.used == m.bits) ≡ true → (start : ℕ) → Occupies m start (alloc_from m start)
  unfolding alloc_from find_free_from occupy
  at_capacity e start = rw e (Occupies.full (λ i a b. full_map m v (ground arith) i b))

  -- On a valid map whose words all begin below the capacity, `alloc_from` sets the least clear bit from
  -- `start` on and no other, counts it, and answers `None` only when there is none.
  pub alloc_from-Occupies :
      (start : ℕ) → IsTight m.bits m.words → Occupies m start (alloc_from m start)
  unfolding alloc_from find_free_from
  alloc_from-Occupies start t = elim (Bool-cases (m.used == m.bits)) [
    | inl e ↦ at_capacity e start
    | inr ne ↦
        rw ne (occupy-Occupies start _ (scan_words-Finds m.words m.bits start true v.words t))
  ]

  -- In a map that is not full, the search from the first bit stops below the capacity.
  capped :
      m.used ≢ m.bits
      → (r : Option ℕ) → Finds (λ i. wanted true (bit m.words i)) 0 (reach m.bits m.words) r
      → Finds (λ i. wanted true (bit m.words i)) 0 m.bits r
  unfolding wanted
  capped ne _ (Finds.nothing h) = absurd (
      not_full m v ne (λ i l.
        ground (arith, h i (omega arith) (omega (arith, bits-le-reach m.bits m.words v.fits)))))
  capped ne _ (Finds.least i a b c h) = elim (Bool-cases (ltb i m.bits)) [
    | inl l ↦ Finds.least i a (ltb→lt i m.bits l) c h
    | inr out ↦ absurd (not_full m v ne (λ j l. ground (arith, h j (omega arith) (ground arith))))
  ]

  -- On any valid map, also one with words beyond the capacity, `alloc` sets the least clear bit and no
  -- other, counts it, and answers `None` only when every bit of the capacity is set.
  alloc-Occupies : Occupies m 0 (alloc m)
  unfolding alloc find_free_from alloc_from
  alloc-Occupies = elim (Bool-cases (m.used == m.bits)) [
    | inl e ↦ at_capacity e 0
    | inr ne ↦
        let some_bits : 0 < m.bits = ground (arith, v.counted, count-le (bit m.words) m.bits) in
        rw ne (
          occupy-Occupies 0 _ (
            capped (ground arith) _
              (scan_words-reach m.words m.bits 0 true v.words v.fits some_bits)))
  ]
