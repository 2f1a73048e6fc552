-- ===== src/IdAlloc/Major/Majors.antt =====
-- `alloc_major` and `alloc_major_at`: what each returns, on every branch.
use Prim.Native.Nat.{bit_and}
use native.Mathlib.Nat.{mod-eq_of_lt}
use athera.Prelude.{
  ℕ, ◌+◌, ◌%◌, ◌^◌, ◌≤◌, ◌<◌, ◌≡◌, ◌≢◌, sym, ap, ◌∙◌, Option, none, some, true, false, ◌||◌, ltb,
  ◌==◌, arith, ◌⊎◌, inl, inr, Option-cases, Bool-cases, ℕ_discrete, dec_lt,
}
use athera.Prelude.Result.{Result, ok, err}
use athera.Prelude.Bits.{pow-pos, pow-lt}
use athera.Prelude.BTreeMap.{get}
use athera.IdAlloc.Id.{
  IdAllocError, id_max, not_aligned, out_of_range, already_allocated, range_busy, low_mask,
  block_size, wrapping_add, from_bits,
}
use athera.IdAlloc.Ranges.Spec.{is_free}
use athera.IdAlloc.Ranges.Cut.{holds, holds_bound, holds_free}
use athera.IdAlloc.Flat
use athera.IdAlloc.Flat.{Outcome, panic, returns}
use athera.IdAlloc.Flat.Aligned.{find_aligned-some, find_aligned-none, block_size_lem}
use athera.IdAlloc.Flat.Blocks.{carve-Carves, carve_busy}
use athera.IdAlloc.Major.{
  IdAlloc, MajorSlot, alloc_major, alloc_major_at, block_end, reserve, insert_slot, expect, pass,
}
use athera.IdAlloc.Major.Blocks.{base_of, within_lem, block_end_lem, aligned_test}
use athera.IdAlloc.Major.Valid.{owned, IsValid, vacant, vacant_flat}
use athera.IdAlloc.Major.Reserve.{Reserves, reserved-Reserves}

-- Every number of the block at `base` is vacant, and none lies in a major.
abbrev pub IsOpen : ℕ → IdAlloc → ℕ → Type 0
IsOpen n a base =
    (i : ℕ) → base_of n i ≡ base → (vacant n a i ≡ true) × (owned n a.majors i ≡ false)

-- The answers of `alloc_major`.
pub data AllocMajor (w n : ℕ) (a : IdAlloc) : Outcome (IdAlloc × Option ℕ) → Type 0 where
  full :
      ((base : ℕ) → base % 2 ^ n ≡ 0 → ¬ (IsOpen n a base)) → AllocMajor w n a (returns (a, none))
  done :
      (base : ℕ) (a' : IdAlloc)
      → Reserves w n a base a'
      → AllocMajor w n a (returns (a', some base))

-- The answers of `alloc_major_at`.
pub data AllocMajorAt (w n : ℕ) (a : IdAlloc) (base : ℕ)
    : IdAlloc × Result ℕ IdAllocError → Type 0 where
  misaligned : base % 2 ^ n ≢ 0 → AllocMajorAt w n a base (a, err not_aligned)
  outside :
      (Flat.contains a.flat base ≡ false) ⊎ (a.flat.end < base + 2 ^ n)
      → AllocMajorAt w n a base (a, err out_of_range)
  taken :
      (s : MajorSlot)
      → get base a.majors ≡ some s
      → AllocMajorAt w n a base (a, err already_allocated)
  busy : ¬ (IsOpen n a base) → AllocMajorAt w n a base (a, err range_busy)
  done : (a' : IdAlloc) → Reserves w n a base a' → AllocMajorAt w n a base (a', ok base)

module _ (w n : ℕ) (lt : n < w) (narrow : w < 127) (a : IdAlloc) (v : IsValid w n a) where
  open_free : (base i : ℕ) → IsOpen n a base → base_of n i ≡ base → is_free i a.flat.ranges ≡ true
  open_free base i o q = elim (Option-cases (get (base_of n i) a.majors)) [
    | inl e ↦ sym (vacant_flat n i a e) ∙ (o i q).0
    | inr (s, e) ↦ absurd (ground (arith, (o i q).1))
  ]

  open_holds :
      (base : ℕ)
      → base % 2 ^ n ≡ 0
      → IsOpen n a base
      → holds base (base + 2 ^ n) a.flat.ranges ≡ true
  open_holds base aligned o =
      holds_free a.flat.start a.flat.end base (base + 2 ^ n) a.flat.ranges v.flat.formed
        (omega (arith, pow-pos n))
        (λ i p l. open_free base i o (ground (arith, within_lem n base i aligned)))

  -- The block at `base` is taken out, where one interval holds it.
  reserve-Reserves :
      (base : ℕ)
      → base % 2 ^ n ≡ 0
      → holds base (base + 2 ^ n) a.flat.ranges ≡ true
      → (a' : IdAlloc) × (reserve a base (base + 2 ^ n) ≡ (a', ok tt)) × Reserves w n a base a'
  unfolding reserve insert_slot
  reserve-Reserves base aligned h =
      let bounds =
        holds_bound a.flat.start a.flat.end base (base + 2 ^ n) a.flat.ranges v.flat.formed h in
      let (f, run, c) =
        carve-Carves w (owned n a.majors) a.flat v.flat base (base + 2 ^ n)
          (omega (arith, pow-pos n)) bounds.0 bounds.1 h in
      (
        _,
        ap (insert_slot a base (base + 2 ^ n)) run,
        reserved-Reserves w n a v base aligned f c bounds.0 bounds.1,
      )

  ran :
      (base : ℕ) (a' : IdAlloc)
      → Flat.find_aligned_block w a.flat n ≡ some base
      → reserve a base (block_end w n base) ≡ (a', ok tt)
      → alloc_major w n a ≡ returns (a', some base)
  unfolding alloc_major expect
  ran base a' e run = rw (e, alloc_major) (ap (expect base) run)

  -- On a valid allocator (`n < w < 127`), `alloc_major` does not panic. It answers `None` only when
  -- no aligned block is open (all vacant and in no major), and otherwise reserves a block that was
  -- open: a new major at its base, the vacant IDs as before, and the state valid.
  pub alloc_major-AllocMajor : AllocMajor w n a (alloc_major w n a)
  unfolding alloc_major Flat.find_aligned_block
  alloc_major-AllocMajor =
      let small : (block_size n == 0) ≡ false =
        rw (block_size_lem n (omega arith)) (ground (arith, pow-pos n)) in
      elim (Option-cases (Flat.find_aligned_block w a.flat n)) [
        | inl e ↦
            let nothing = rw (Flat.find_aligned_block, small) at e in
            rw (e, alloc_major)
              (full (λ base aligned o. ground (
                arith,
                open_holds base aligned o,
                find_aligned-none w n (omega arith) narrow a.flat.start a.flat.end base
                    a.flat.ranges v.flat.formed v.flat.fits nothing aligned,
              )))
        | inr (base, e) ↦
            let something = rw (Flat.find_aligned_block, small) at e in
            let found =
              find_aligned-some w n (omega arith) narrow a.flat.start a.flat.end base a.flat.ranges
                v.flat.formed v.flat.fits something in
            let bounds =
              holds_bound a.flat.start a.flat.end base (base + 2 ^ n) a.flat.ranges v.flat.formed
                found.1 in
            let end = block_end_lem w n lt narrow base (omega (arith, v.flat.fits)) in
            let (a', run, r) = reserve-Reserves base found.0 found.1 in
            rw (ran base a' e (ap (reserve a base) end ∙ run)) (done base a' r)
      ]

  -- `reserve` refuses a block that is not open, and changes nothing.
  reserve_busy :
      (base : ℕ)
      → a.flat.start ≤ base
      → base + 2 ^ n ≤ a.flat.end
      → holds base (base + 2 ^ n) a.flat.ranges ≡ false
      → reserve a base (base + 2 ^ n) ≡ (a, err range_busy)
  unfolding reserve insert_slot
  reserve_busy base p q h = ap (insert_slot a base (base + 2 ^ n)) (
      carve_busy w (owned n a.majors) a.flat v.flat base (base + 2 ^ n) (omega (arith, pow-pos n)) p
        q h)

  plain : (base : ℕ) → base ≤ id_max w → wrapping_add base (block_size n) ≡ base + 2 ^ n
  plain base h =
      rw (block_size_lem n (omega arith))
        (mod-eq_of_lt (omega (arith, pow-lt w 127 narrow, pow-lt n 127 (omega arith), pow-pos w)))

  at_misaligned : (base : ℕ) → base % 2 ^ n ≢ 0 → alloc_major_at w n a base ≡ (a, err not_aligned)
  unfolding alloc_major_at
  at_misaligned base h =
      let test : (bit_and base (low_mask n) == 0) ≡ false =
        rw (aligned_test w n lt narrow base) (ground arith) in
      rw test

  module _ (base : ℕ) (aligned : base % 2 ^ n ≡ 0) where
    test : (bit_and base (low_mask n) == 0) ≡ true
    test = rw (aligned_test w n lt narrow base, aligned)

    at_outside :
        Flat.contains a.flat base ≡ false → alloc_major_at w n a base ≡ (a, err out_of_range)
    unfolding alloc_major_at
    at_outside h = rw (test, h)

    module _ (inside : Flat.contains a.flat base ≡ true) where
      below : base < a.flat.end
      below = unfold Flat.contains in ground arith

      at_end : a.flat.end < base + 2 ^ n → alloc_major_at w n a base ≡ (a, err out_of_range)
      unfolding alloc_major_at
      at_end h =
          let over : ((base + 2 ^ n == 0) || ltb a.flat.end (base + 2 ^ n)) ≡ true = ground arith in
          rw (test, inside, plain base (omega (arith, below, v.flat.fits)), over)

      module _ (fits : base + 2 ^ n ≤ a.flat.end) where
        room : ((base + 2 ^ n == 0) || ltb a.flat.end (base + 2 ^ n)) ≡ false
        room = ground (arith, pow-pos n)

        at_taken :
            (s : MajorSlot)
            → get base a.majors ≡ some s
            → alloc_major_at w n a base ≡ (a, err already_allocated)
        unfolding alloc_major_at
        at_taken s e = rw (test, inside, plain base (omega (arith, below, v.flat.fits)), room, e)

        at_reserve :
            get base a.majors ≡ none
            → alloc_major_at w n a base ≡ pass base (reserve a base (base + 2 ^ n))
        unfolding alloc_major_at
        at_reserve e =
            let same : from_bits w (base + 2 ^ n) ≡ base + 2 ^ n =
              mod-eq_of_lt (omega (arith, v.flat.fits, pow-pos w)) in
            rw (test, inside, plain base (omega (arith, below, v.flat.fits)), room, e)
              (ap (λ x. pass base (reserve a base x))
                (ap (from_bits w) (plain base (omega (arith, below, v.flat.fits))) ∙ same))

        at_free : get base a.majors ≡ none → AllocMajorAt w n a base (alloc_major_at w n a base)
        unfolding pass
        at_free e = elim (Bool-cases (holds base (base + 2 ^ n) a.flat.ranges)) [
          | inl h ↦
              let (a', run, r) = reserve-Reserves base aligned h in
              rw (at_reserve e ∙ ap (pass base) run) (done a' r)
          | inr h ↦
              rw
                (at_reserve e
                  ∙ ap (pass base)
                      (reserve_busy base (unfold Flat.contains in ground arith) fits h))
                (busy (λ o. ground (arith, open_holds base aligned o)))
        ]

  -- On a valid allocator (`n < w < 127`), `alloc_major_at` answers `NotAligned`, `OutOfRange`,
  -- `AlreadyAllocated` or `RangeBusy` only under that error's condition and with the state unchanged,
  -- and otherwise reserves the block at `base`.
  pub alloc_major_at-AllocMajorAt : (base : ℕ) → AllocMajorAt w n a base (alloc_major_at w n a base)
  alloc_major_at-AllocMajorAt base = elim (ℕ_discrete (base % 2 ^ n) 0) [
    | no h ↦ rw (at_misaligned base h) (misaligned h)
    | yes aligned ↦ elim (Bool-cases (Flat.contains a.flat base)) [
      | inr h ↦ rw (at_outside base aligned h) (outside (inl h))
      | inl inside ↦ elim (dec_lt a.flat.end (base + 2 ^ n)) [
        | yes h ↦ rw (at_end base aligned inside h) (outside (inr h))
        | no h ↦ elim (Option-cases (get base a.majors)) [
          | inr (s, e) ↦ rw (at_taken base aligned inside (omega arith) s e) (taken s e)
          | inl e ↦ at_free base aligned inside (omega arith) e
        ]
      ]
    ]
  ]
