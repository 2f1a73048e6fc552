-- ===== src/MemoryMap/Mapped.antt =====
-- Where `mmap` and `mremap` put a mapping, and that the whole range that they answer is mapped.
use athera.Prelude.{
  ℕ, ◌+◌, ◌^◌, ◌≤◌, ◌<◌, ◌≡◌, inl, inr, Option, some, true, false, not, ◌&&◌, List, [], ◌∷◌, ◌++◌,
  ltb, ◌==◌, arith, Bool-cases, Option-cases,
}
use athera.Prelude.Result.{ok, err, Result-cases}
use athera.Frames.{Frame, page_size, alloc_frames}
use athera.Frames.Segments.{total, rounded, Blocks, alloc_frames-total, alloc_frames-Blocks}
use athera.PageTable.{PageTableEntryFlags}
use athera.MemoryMap.{
  ErrorCode, enomem, eexist, UserMapping, range_is_free, find_free_region, is_canonical_user_range,
  prot_to_page_flags,
}
use athera.MemoryMap.Pages.{Machine, After, finish, zero_frames}
use athera.MemoryMap.Calls.{
  checked_add, is_multiple_of, is_fixed, is_noreplace, mmap_target, mmap_fill, mmap_task,
}
use athera.MemoryMap.Regions.{
  IsMap, ClearsStack, FindsRegion, region, full, find_free_region-FindsRegion,
}
use athera.MemoryMap.Unmap.{MapsFrame, mapped, refused, map_frame-MapsFrame}

-- What a call that may only add a mapping answers: an address whose range was free, with the mapping
-- there added at the end, or an error with the list as it was.
pub data Adds (ms : List UserMapping) (length : ℕ) (flags : PageTableEntryFlags)
    : After ℕ → Type 0 where
  added :
      (s : Machine) (a : ℕ) (frames : List Frame)
      → range_is_free ms a (a + length) ≡ true
      → is_canonical_user_range a (a + length) ≡ true
      → total frames ≡ rounded length
      → length ≤ total frames
      → Blocks frames
      → Adds ms length flags
          (finish s (ms ++ (record { va = a; frames = frames; flags = flags } ∷ [])) (ok a))
  unchanged : (s : Machine) (e : ErrorCode) → Adds ms length flags (finish s ms (err e))

-- `mmap_fill` on a list of mappings.
pub data Fills (ms : List UserMapping) (target length : ℕ) (flags : PageTableEntryFlags)
    : After ℕ → Type 0 where
  fills :
      (s : Machine) (frames : List Frame)
      → total frames ≡ rounded length
      → length ≤ total frames
      → Blocks frames
      → Fills ms target length flags (
          finish s
            (ms ++ (record { va = target; frames = frames; flags = flags } ∷ []))
            (ok target))
  fills_not : (s : Machine) (e : ErrorCode) → Fills ms target length flags (finish s ms (err e))

pub mmap_fill-Fills :
    (s : Machine) (ms : List UserMapping) (tid target length : ℕ) (flags : PageTableEntryFlags)
    → Fills ms target length flags (mmap_fill s ms tid target length flags)
unfolding mmap_fill
mmap_fill-Fills s ms tid target length flags =
    elim (Option-cases ((alloc_frames s.allocator length).1)) [
      | inl q ↦ rw (q, mmap_fill) (fills_not _ _)
      | inr (frames, q) ↦
          let t = alloc_frames-total s.allocator length frames q in
          rw (q, mmap_fill)
            (answered frames (t.0) (t.1) (alloc_frames-Blocks s.allocator length frames q) _ (
              map_frame-MapsFrame
                (record s {
                  allocator = (alloc_frames s.allocator length).0;
                  memory = zero_frames s.memory frames;
                })
                ms tid target frames flags))
    ]
  where
    answered :
        (frames : List Frame)
        → total frames ≡ rounded length
        → length ≤ total frames
        → Blocks frames
        → (m : After (Unit {0})) → MapsFrame ms target frames flags m
        → Fills ms target length flags (elim m.answer [
          | err e ↦ finish m.machine m.mappings (err e)
          | ok u ↦ finish m.machine m.mappings (ok target)
        ])
    answered frames e le bs _ (mapped s') = fills s' frames e le bs
    answered frames e le bs _ (refused s' c) = fills_not s' c

checked_add_sum : (a b c : ℕ) → checked_add a b ≡ some c → c ≡ a + b
unfolding checked_add
checked_add_sum a b c h = ground (arith, h)

region_free :
    {ms : List UserMapping} {length : ℕ} {o : Option ℕ} (a : ℕ)
    → FindsRegion ms length o
    → o ≡ some a
    → range_is_free ms a (a + length) ≡ true
region_free a (region b h free most) e = let same : b ≡ a = ground (arith, e) in rw⁻¹ same free
region_free a (full h) e = absurd (ground (arith, e))

mmap_target_free :
    (ms : List UserMapping) (addr length a : ℕ)
    → 0 < length
    → IsMap ms
    → ClearsStack ms
    → mmap_target ms addr length false ≡ ok a
    → range_is_free ms a (a + length) ≡ true
unfolding mmap_target checked_add
mmap_target_free ms addr length a n w k h =
    elim (Bool-cases (
      not (addr == 0)
      && is_multiple_of addr page_size
      && ltb (addr + length) (2 ^ 64)
      && range_is_free ms addr (addr + length))) [
        | inl c ↦
            let same : addr ≡ a = ground (arith, h, c) in
            let free : range_is_free ms addr (addr + length) ≡ true = ground (arith, c) in
            rw⁻¹ same free
        | inr c ↦ elim (Option-cases (find_free_region ms length)) [
          | inl q ↦ absurd (ground (arith, h, c, q))
          | inr (b, q) ↦
              let same : b ≡ a = ground (arith, h, c, q) in
              region_free a (find_free_region-FindsRegion ms length n w k) (rw⁻¹ same q)
        ]
      ]

-- On mappings that hold a byte each, do not overlap and do not reach across the lower end of the
-- stack, `mmap` of a positive length that may not replace a mapping only adds one: on success at a
-- canonical range that was free, on the `rounded` bytes of frames and with the flags of `prot`.
pub mmap_task-Adds :
    (s : Machine) (tid addr length prot flags : ℕ) (ms : List UserMapping)
    → 0 < length
    → IsMap ms
    → ClearsStack ms
    → (is_fixed flags && not (is_noreplace flags)) ≡ false
    → Adds ms length (prot_to_page_flags prot) (mmap_task s tid addr length prot flags ms)
unfolding mmap_task
mmap_task-Adds s tid addr length prot flags ms n w k f =
    elim (Result-cases (mmap_target ms addr length (is_fixed flags))) [
      | inr (e, q) ↦ rw (q, mmap_task) (unchanged s e)
      | inl (target, q) ↦ elim (Option-cases (checked_add target length)) [
        | inl c ↦ rw (q, c, mmap_task) (unchanged s enomem)
        | inr (end, c) ↦
            rw (q, c, f, mmap_task, checked_add_sum target length end c)
              (elim (Bool-cases (is_canonical_user_range target (target + length))) [
                | inr o ↦ rw o (unchanged s enomem)
                | inl o ↦
                    elim (Bool-cases
                      (is_noreplace flags && not (range_is_free ms target (target + length)))) [
                        | inl p ↦ rw (o, p) (unchanged s eexist)
                        | inr p ↦
                            rw (o, p)
                              (adds target o (free target q p)
                                (mmap_fill-Fills s ms tid target length (prot_to_page_flags prot)))
                      ]
              ])
      ]
    ]
  where
    free :
        (target : ℕ)
        → mmap_target ms addr length (is_fixed flags) ≡ ok target
        → (is_noreplace flags && not (range_is_free ms target (target + length))) ≡ false
        → range_is_free ms target (target + length) ≡ true
    free target q p = elim (Bool-cases (is_fixed flags)) [
      | inl x ↦ ground (arith, x, f, p)
      | inr x ↦ mmap_target_free ms addr length target n w k (rw x at q)
    ]

    adds :
        (target : ℕ) {r : After ℕ}
        → is_canonical_user_range target (target + length) ≡ true
        → range_is_free ms target (target + length) ≡ true
        → Fills ms target length (prot_to_page_flags prot) r
        → Adds ms length (prot_to_page_flags prot) r
    adds target o clear (fills s' frames e le bs) = added s' target frames clear o e le bs
    adds target o clear (fills_not s' e) = unchanged s' e
