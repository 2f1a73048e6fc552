-- ===== src/Bitmap/Map/Ops.antt =====
-- What each method of `BitMap` does to a valid map, on every branch.
use athera.Prelude.{
  ℕ, ◌+◌, ◌-◌, ◌≤◌, ◌<◌, ◌≡◌, ap, ◌∙◌, Bool, true, false, ltb, arith, inl, inr, Bool-cases, ltb→lt,
}
use athera.Prelude.Result.{ok, err, Outcome, returns}
use athera.Bitmap.Words.{out_of_range, already_set, already_free, set_bit, clear_bit}
use athera.Bitmap.Words.Bits.{
  bit, is_bit_set-bit, set_bit-IsWords, clear_bit-IsWords, length-set_bit, length-clear_bit,
  bit-set_bit, bit-clear_bit,
}
use athera.Bitmap.Words.Count.{SetsRun, ClearsRun}
use athera.Bitmap.Map.{BitMap, Status, set, clear, alloc_specific, free}
use athera.Bitmap.Map.Valid.{IsValid, Takes, Frees, taken, freed}

-- The answers of `set`.
pub data Set (m : BitMap) (index : ℕ) : BitMap × Status → Type 0 where
  outside : m.bits ≤ index → Set m index (m, err out_of_range)
  already : index < m.bits → bit m.words index ≡ true → Set m index (m, ok tt)
  done : (m' : BitMap) → Takes m index 1 m' → Set m index (m', ok tt)

-- The answers of `alloc_specific`.
pub data AllocSpecific (m : BitMap) (index : ℕ) : BitMap × Status → Type 0 where
  outside : m.bits ≤ index → AllocSpecific m index (m, err out_of_range)
  busy : index < m.bits → bit m.words index ≡ true → AllocSpecific m index (m, err already_set)
  done : (m' : BitMap) → Takes m index 1 m' → AllocSpecific m index (m', ok tt)

-- The answers of `clear`.
pub data Clear (m : BitMap) (index : ℕ) : Outcome (BitMap × Status) → Type 0 where
  outside : m.bits ≤ index → Clear m index (returns (m, err out_of_range))
  already : index < m.bits → bit m.words index ≡ false → Clear m index (returns (m, ok tt))
  done : (m' : BitMap) → Frees m index 1 m' → Clear m index (returns (m', ok tt))

-- The answers of `free`.
pub data Free (m : BitMap) (index : ℕ) : Outcome (BitMap × Status) → Type 0 where
  outside : m.bits ≤ index → Free m index (returns (m, err out_of_range))
  idle : index < m.bits → bit m.words index ≡ false → Free m index (returns (m, err already_free))
  done : (m' : BitMap) → Frees m index 1 m' → Free m index (returns (m', ok tt))

module _ (m : BitMap) (v : IsValid m) (index : ℕ) where
  one_set : index < m.bits → SetsRun m.words index 1 (set_bit m.words index)
  one_set l = record {
    keeps = record {
      words = set_bit-IsWords m.words index v.words;
      same_length = length-set_bit m.words index v.words;
    };
    bits = λ j. ground (arith, bit-set_bit m.words index v.words (omega (arith, v.fits)) j);
  }

  one_clear : index < m.bits → ClearsRun m.words index 1 (clear_bit m.words index)
  one_clear l = record {
    keeps = record {
      words = clear_bit-IsWords m.words index v.words;
      same_length = length-clear_bit m.words index v.words;
    };
    bits = λ j. ground (arith, bit-clear_bit m.words index v.words (omega (arith, v.fits)) j);
  }

  only : (p : ℕ → Bool) (b : Bool) → p index ≡ b → (j : ℕ) → index ≤ j → j < index + 1 → p j ≡ b
  only p b e j h l = let at : j ≡ index = omega arith in ap p at ∙ e

  pub Takes-one :
      index < m.bits
      → bit m.words index ≡ false
      → Takes m index 1 (record m { words = set_bit m.words index; used = m.used + 1 })
  Takes-one l e =
      taken m v index 1 (set_bit m.words index) (omega arith) (only (bit m.words) false e)
        (one_set l)

  Frees-one :
      index < m.bits
      → bit m.words index ≡ true
      → Frees m index 1 (record m { words = clear_bit m.words index; used = m.used - 1 })
  Frees-one l e =
      freed m v index 1 (clear_bit m.words index) (omega arith) (only (bit m.words) true e)
        (one_clear l)

  -- On a valid map, `set` answers `OutOfRange` beyond the capacity, leaves a map whose bit is set as it
  -- is, and otherwise sets that bit and no other, and counts it.
  set-Set : Set m index (set m index)
  unfolding set
  set-Set = elim (Bool-cases (ltb index m.bits)) [
    | inr out ↦ rw out (Set.outside (ground arith))
    | inl inside ↦ elim (Bool-cases (bit m.words index)) [
      | inl b ↦
          rw (inside, is_bit_set-bit m.words index, b) (Set.already (ltb→lt index m.bits inside) b)
      | inr b ↦
          rw (inside, is_bit_set-bit m.words index, b)
            (Set.done _ (Takes-one (ltb→lt index m.bits inside) b))
    ]
  ]

  -- On a valid map, `alloc_specific` answers `OutOfRange` beyond the capacity and `AlreadySet` for a set
  -- bit, both with the map unchanged. Otherwise it sets that bit and no other, and counts it.
  pub alloc_specific-AllocSpecific : AllocSpecific m index (alloc_specific m index)
  unfolding alloc_specific
  alloc_specific-AllocSpecific = elim (Bool-cases (ltb index m.bits)) [
    | inr out ↦ rw out (AllocSpecific.outside (ground arith))
    | inl inside ↦ elim (Bool-cases (bit m.words index)) [
      | inl b ↦
          rw (inside, is_bit_set-bit m.words index, b)
            (AllocSpecific.busy (ltb→lt index m.bits inside) b)
      | inr b ↦
          rw (inside, is_bit_set-bit m.words index, b)
            (AllocSpecific.done _ (Takes-one (ltb→lt index m.bits inside) b))
    ]
  ]

  -- A set bit is counted, so the counter does not go below zero.
  counted_bit : index < m.bits → bit m.words index ≡ true → ltb m.used 1 ≡ false
  counted_bit l b = ground (arith, (Frees-one l b).less_used)

  -- On a valid map, `clear` answers `OutOfRange` beyond the capacity, leaves a map whose bit is clear as
  -- it is, and otherwise clears that bit and no other, and the counter goes down by one without a panic.
  clear-Clear : Clear m index (clear m index)
  unfolding clear
  clear-Clear = elim (Bool-cases (ltb index m.bits)) [
    | inr out ↦ rw out (Clear.outside (ground arith))
    | inl inside ↦ elim (Bool-cases (bit m.words index)) [
      | inr b ↦
          rw (inside, is_bit_set-bit m.words index, b)
            (Clear.already (ltb→lt index m.bits inside) b)
      | inl b ↦
          let l = ltb→lt index m.bits inside in
          rw (inside, is_bit_set-bit m.words index, b, counted_bit l b)
            (Clear.done _ (Frees-one l b))
    ]
  ]

  -- On a valid map, `free` answers `OutOfRange` beyond the capacity and `AlreadyFree` for a clear bit,
  -- both with the map unchanged. Otherwise it clears that bit and no other, and the counter goes down
  -- by one without a panic.
  free-Free : Free m index (free m index)
  unfolding free
  free-Free = elim (Bool-cases (ltb index m.bits)) [
    | inr out ↦ rw out (Free.outside (ground arith))
    | inl inside ↦ elim (Bool-cases (bit m.words index)) [
      | inr b ↦
          rw (inside, is_bit_set-bit m.words index, b) (Free.idle (ltb→lt index m.bits inside) b)
      | inl b ↦
          let l = ltb→lt index m.bits inside in
          rw (inside, is_bit_set-bit m.words index, b, counted_bit l b)
            (Free.done _ (Frees-one l b))
    ]
  ]
