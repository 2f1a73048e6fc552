-- ===== src/Bitmap/Map/Ranges.antt =====
-- `alloc_range` and `free_range`: runs of bits.
use athera.Prelude.{
  ℕ, ◌+◌, ◌-◌, ◌≤◌, ◌<◌, ◌≡◌, refl, ◌⊎◌, Option, none, some, Bool, false, ◌&&◌, ◌||◌, ltb, leb,
  ◌==◌, arith, inl, inr, Bool-cases, ltb→lt,
}
use athera.Prelude.Count.{count-le}
use athera.Prelude.Result.{ok, err, Outcome, returns}
use athera.Bitmap.Words.{
  out_of_range, already_free, find_run, set_run, clear_run, all_set, alloc_range_in, free_range_in,
}
use athera.Bitmap.Words.Bits.{bit}
use athera.Bitmap.Words.Count.{
  count_run, set_run-SetsRun, clear_run-ClearsRun, all_set_iff, not_all_set,
}
use athera.Bitmap.Words.Runs.{FindsRun, IsClearRun, IsBlocked, find_run_start}
use athera.Bitmap.Map.{BitMap, Status, alloc_range, free_range, occupy_run, release_run, available}
use athera.Bitmap.Map.Valid.{IsValid, Takes, Frees, taken, freed}

-- The answers of `alloc_range`.
pub data AllocRange (m : BitMap) (n : ℕ) : BitMap × Option ℕ → Type 0 where
  zero_bits : n ≡ 0 → AllocRange m n (m, none)
  nothing : ((s : ℕ) → s + n ≤ m.bits → IsBlocked m.words s n) → AllocRange m n (m, none)
  first :
      (start : ℕ) (m' : BitMap)
      → ((s : ℕ) → s < start → IsBlocked m.words s n)
      → Takes m start n m'
      → AllocRange m n (m', some start)

-- The answers of `free_range`.
pub data FreeRange (m : BitMap) (start end : ℕ) : Outcome (BitMap × Status) → Type 0 where
  outside : (end < start) ⊎ (m.bits < end) → FreeRange m start end (returns (m, err out_of_range))
  idle :
      (j : ℕ)
      → start ≤ j
      → j < end
      → bit m.words j ≡ false
      → FreeRange m start end (returns (m, err already_free))
  done :
      (m' : BitMap) → Frees m start (end - start) m' → FreeRange m start end (returns (m', ok tt))

module _ (m : BitMap) (v : IsValid m) where
  clear_count : (s n : ℕ) → s + n ≤ m.bits → IsClearRun m.words s n → n ≤ available m
  clear_count s n l c =
      let grown : ℕ → Bool = λ j. bit m.words j || (leb s j && ltb j (s + n)) in
      omega (
        arith,
        v.counted,
        count_run (bit m.words) grown s n m.bits l c (λ j. refl),
        count-le grown m.bits,
      )

  -- A map with fewer than `n` clear bits has no run of `n`.
  too_few :
      (n : ℕ) (r : Option ℕ)
      → m.bits - m.used < n
      → FindsRun m.words n m.bits r
      → AllocRange m n (m, none)
  too_few n _ h (FindsRun.nothing b) = AllocRange.nothing b
  too_few n _ h (FindsRun.first s l c b) = absurd (omega (arith, clear_count s n l c))

  -- The end of `alloc_range_in` and of `alloc_range`, by the answer of the loop.
  take_run : ℕ → Option ℕ → BitMap × Option ℕ
  take_run n none = (m, none)
  take_run n (some s) = (record m { words = set_run m.words s n; used = m.used + n }, some s)

  take_run-AllocRange :
      (n : ℕ) (r : Option ℕ) → FindsRun m.words n m.bits r → AllocRange m n (take_run n r)
  unfolding take_run
  take_run-AllocRange n _ (FindsRun.nothing b) = AllocRange.nothing b
  take_run-AllocRange n _ (FindsRun.first s l c b) = AllocRange.first s _ b (
      taken m v s n (set_run m.words s n) l c
        (set_run-SetsRun m.words s n v.words (omega (arith, v.fits))))

  take_run-eq :
      (n : ℕ) (r : Option ℕ)
      → occupy_run m n (elim r [ none ↦ none | some s ↦ some (set_run m.words s n, s) ])
        ≡ take_run n r
  unfolding take_run occupy_run
  take_run-eq n none = refl
  take_run-eq n (some s) = refl

  -- On a valid map, whose counter is the number of the set bits below the capacity, `alloc_range` sets the first run of `n` clear bits and no other bit, and counts it.
  -- It answers `None` only for `n = 0` or when every run of `n` bits of the capacity has a set bit.
  pub alloc_range-AllocRange : (n : ℕ) → AllocRange m n (alloc_range m n)
  unfolding alloc_range alloc_range_in
  alloc_range-AllocRange n = elim (Bool-cases (n == 0)) [
    | inl z ↦ rw z (AllocRange.zero_bits (ground arith))
    | inr nz ↦
        let f = find_run_start m.words n m.bits (ground arith) in
        elim (Bool-cases (ltb (m.bits - m.used) n)) [
          | inl h ↦ rw (nz, h) (too_few n _ (ltb→lt (m.bits - m.used) n h) f)
          | inr h ↦
              rw (nz, h, take_run-eq n (find_run m.words n m.bits 0 0 0))
                (take_run-AllocRange n _ f)
        ]
  ]

  -- On a valid map, `free_range` answers `OutOfRange` for a range that is reversed or ends beyond the
  -- capacity and `AlreadyFree` for one with a clear bit, both with the map unchanged. Otherwise it
  -- clears the range and no other bit, and the counter goes down by its length without a panic.
  pub free_range-FreeRange : (start end : ℕ) → FreeRange m start end (free_range m start end)
  unfolding free_range free_range_in release_run
  free_range-FreeRange start end = elim (Bool-cases (ltb end start)) [
    | inl h ↦ rw h (FreeRange.outside (inl (ltb→lt end start h)))
    | inr h ↦ elim (Bool-cases (ltb m.bits end)) [
      | inl k ↦ rw (h, k) (FreeRange.outside (inr (ltb→lt m.bits end k)))
      | inr k ↦ elim (Bool-cases (all_set m.words start (end - start))) [
        | inr c ↦
            let (j, a, b, z) = not_all_set m.words start (end - start) c in
            rw (h, k, c) (FreeRange.idle j a (omega arith) z)
        | inl c ↦
            let inside : start + (end - start) ≤ m.bits = ground arith in
            let f =
              freed m v start (end - start) (clear_run m.words start (end - start)) inside
                (all_set_iff m.words start (end - start) c)
                (clear_run-ClearsRun m.words start (end - start) v.words (omega (arith, v.fits))) in
            let counted : ltb m.used (end - start) ≡ false = ground (arith, f.less_used) in
            rw (h, k, c, counted) (FreeRange.done _ f)
      ]
    ]
  ]
