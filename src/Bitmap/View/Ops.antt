-- ===== src/Bitmap/View/Ops.antt =====
-- What the methods of `BitMapView` do to the bits of the words they borrow.
use athera.Prelude.{
  ℕ, ◌+◌, ◌-◌, ◌*◌, ◌≤◌, ◌<◌, ◌≡◌, refl, ◌⊎◌, Option, none, some, Bool, true, false, not, ◌&&◌,
  ◌||◌, length, ltb, leb, ◌==◌, arith, inl, inr, Bool-cases, ltb→lt,
}
use athera.Prelude.Result.{ok, err}
use athera.Bitmap.Words.{
  out_of_range, already_set, already_free, set_bit, clear_bit, all_set, free_range_in,
}
use athera.Bitmap.Words.Bits.{
  bit, IsWords, is_bit_set-bit, set_bit-IsWords, clear_bit-IsWords, length-set_bit,
  length-clear_bit, bit-set_bit, bit-clear_bit,
}
use athera.Bitmap.Words.Count.{clear_run-ClearsRun, all_set_iff, not_all_set}
use athera.Bitmap.Words.Scan.{wanted, Finds}
use athera.Bitmap.Words.Search.{IsTight, scan_words-Finds}
use athera.Bitmap.View.{
  BitMapView, Status, set, clear, alloc_from, alloc_specific, free_range, occupy, release_run,
}

-- The borrowed words hold the capacity. Bits beyond it may have any value.
pub record IsView (v : BitMapView) : Type 0 where
  pub words : IsWords v.words
  pub fits : v.bits ≤ 64 * length v.words

-- `v'` has the same shape, and its bits are `bits`.
pub record Writes (v : BitMapView) (bits : ℕ → Bool) (v' : BitMapView) : Type 0 where
  pub same_bits : v'.bits ≡ v.bits
  pub same_length : length v'.words ≡ length v.words
  pub changed : (j : ℕ) → bit v'.words j ≡ bits j
  pub is_view : IsView v'

pub with_bit : BitMapView → ℕ → ℕ → Bool
with_bit v index j = bit v.words j || index == j

pub without_run : BitMapView → ℕ → ℕ → ℕ → Bool
without_run v start n j = bit v.words j && not (leb start j && ltb j (start + n))

-- The answers of `set` and `clear`, which take a bit in either state.
pub data Put (v : BitMapView) (index : ℕ) (bits : ℕ → Bool) : BitMapView × Status → Type 0 where
  outside : v.bits ≤ index → Put v index bits (v, err out_of_range)
  done : (v' : BitMapView) → index < v.bits → Writes v bits v' → Put v index bits (v', ok tt)

-- The answers of `alloc_specific`.
pub data AllocSpecific (v : BitMapView) (index : ℕ) : BitMapView × Status → Type 0 where
  outside : v.bits ≤ index → AllocSpecific v index (v, err out_of_range)
  busy : index < v.bits → bit v.words index ≡ true → AllocSpecific v index (v, err already_set)
  done :
      (v' : BitMapView)
      → index < v.bits
      → bit v.words index ≡ false
      → Writes v (with_bit v index) v'
      → AllocSpecific v index (v', ok tt)

-- The answers of `free_range`.
pub data FreeRange (v : BitMapView) (start end : ℕ) : BitMapView × Status → Type 0 where
  outside : (end < start) ⊎ (v.bits < end) → FreeRange v start end (v, err out_of_range)
  idle :
      (j : ℕ)
      → start ≤ j
      → j < end
      → bit v.words j ≡ false
      → FreeRange v start end (v, err already_free)
  done :
      (v' : BitMapView)
      → ((j : ℕ) → start ≤ j → j < end → bit v.words j ≡ true)
      → Writes v (without_run v start (end - start)) v'
      → FreeRange v start end (v', ok tt)

-- The answers of `alloc_from`.
pub data AllocFrom (v : BitMapView) (start : ℕ) : BitMapView × Option ℕ → Type 0 where
  full : ((i : ℕ) → start ≤ i → i < v.bits → bit v.words i ≡ true) → AllocFrom v start (v, none)
  least :
      (index : ℕ) (v' : BitMapView)
      → start ≤ index
      → index < v.bits
      → bit v.words index ≡ false
      → ((i : ℕ) → start ≤ i → i < index → bit v.words i ≡ true)
      → Writes v (with_bit v index) v'
      → AllocFrom v start (v', some index)

module _ (v : BitMapView) (k : IsView v) where
  sets :
      (index : ℕ)
      → index < v.bits
      → Writes v (with_bit v index) (record v { words = set_bit v.words index })
  unfolding with_bit
  sets index l =
      let size = length-set_bit v.words index k.words in
      record {
        same_bits = refl;
        same_length = size;
        changed = bit-set_bit v.words index k.words (omega (arith, k.fits));
        is_view = record {
          words = set_bit-IsWords v.words index k.words;
          fits = omega (arith, size, k.fits);
        };
      }

  clears :
      (index : ℕ)
      → index < v.bits
      → Writes v (without_run v index 1) (record v { words = clear_bit v.words index })
  unfolding without_run
  clears index l =
      let size = length-clear_bit v.words index k.words in
      record {
        same_bits = refl;
        same_length = size;
        changed =
            λ j. ground (arith, bit-clear_bit v.words index k.words (omega (arith, k.fits)) j);
        is_view = record {
          words = clear_bit-IsWords v.words index k.words;
          fits = omega (arith, size, k.fits);
        };
      }

  pub set-Put : (index : ℕ) → Put v index (with_bit v index) (set v index)
  unfolding set
  set-Put index = elim (Bool-cases (ltb index v.bits)) [
    | inr out ↦ rw out (Put.outside (ground arith))
    | inl l ↦ rw l (Put.done _ (ltb→lt index v.bits l) (sets index (ltb→lt index v.bits l)))
  ]

  pub clear-Put : (index : ℕ) → Put v index (without_run v index 1) (clear v index)
  unfolding clear
  clear-Put index = elim (Bool-cases (ltb index v.bits)) [
    | inr out ↦ rw out (Put.outside (ground arith))
    | inl l ↦ rw l (Put.done _ (ltb→lt index v.bits l) (clears index (ltb→lt index v.bits l)))
  ]

  pub alloc_specific-AllocSpecific : (index : ℕ) → AllocSpecific v index (alloc_specific v index)
  unfolding alloc_specific
  alloc_specific-AllocSpecific index = elim (Bool-cases (ltb index v.bits)) [
    | inr out ↦ rw out (AllocSpecific.outside (ground arith))
    | inl inside ↦
        let l = ltb→lt index v.bits inside in
        elim (Bool-cases (bit v.words index)) [
          | inl b ↦ rw (inside, is_bit_set-bit v.words index, b) (AllocSpecific.busy l b)
          | inr b ↦
              rw (inside, is_bit_set-bit v.words index, b) (AllocSpecific.done _ l b (sets index l))
        ]
  ]

  occupy-AllocFrom :
      (start : ℕ) (r : Option ℕ)
      → Finds (λ i. wanted true (bit v.words i)) start v.bits r
      → AllocFrom v start (occupy v r)
  unfolding occupy wanted
  occupy-AllocFrom start _ (Finds.nothing h) = AllocFrom.full (λ i a b. ground (arith, h i a b))
  occupy-AllocFrom start _ (Finds.least i a b c h) =
      AllocFrom.least i _ a b (ground (arith, c)) (λ j d e. ground (arith, h j d e)) (sets i b)

  -- On borrowed words none of which lies wholly beyond the capacity, `alloc_from` sets the least
  -- clear bit from `start` on and no other, and answers `None` only when there is none.
  pub alloc_from-AllocFrom :
      (start : ℕ) → IsTight v.bits v.words → AllocFrom v start (alloc_from v start)
  unfolding alloc_from
  alloc_from-AllocFrom start t =
      occupy-AllocFrom start _ (scan_words-Finds v.words v.bits start true k.words t)

  pub free_range-FreeRange : (start end : ℕ) → FreeRange v start end (free_range v start end)
  unfolding free_range free_range_in release_run without_run
  free_range-FreeRange start end = elim (Bool-cases (ltb end start)) [
    | inl h ↦ rw h (FreeRange.outside (inl (ltb→lt end start h)))
    | inr h ↦ elim (Bool-cases (ltb v.bits end)) [
      | inl g ↦ rw (h, g) (FreeRange.outside (inr (ltb→lt v.bits end g)))
      | inr g ↦ elim (Bool-cases (all_set v.words start (end - start))) [
        | inr c ↦
            let (j, a, b, z) = not_all_set v.words start (end - start) c in
            rw (h, g, c) (FreeRange.idle j a (omega arith) z)
        | inl c ↦
            let inside : start + (end - start) ≤ v.bits = ground arith in
            let done =
              clear_run-ClearsRun v.words start (end - start) k.words (omega (arith, k.fits)) in
            rw (h, g, c)
              (FreeRange.done _
                (λ j a b. all_set_iff v.words start (end - start) c j a (omega arith))
                (record {
                  same_bits = refl;
                  same_length = done.keeps.same_length;
                  changed = done.bits;
                  is_view = record {
                    words = done.keeps.words;
                    fits = omega (arith, done.keeps.same_length, k.fits);
                  };
                }))
      ]
    ]
  ]
