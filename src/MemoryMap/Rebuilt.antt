-- ===== src/MemoryMap/Rebuilt.antt =====
-- `rebuild` of src/mm/memory_map.rs, by which `mremap` gives a mapping new frames: what the page tables
-- hold after it.
use athera.Prelude.{
  ℕ, ◌+◌, ◌-◌, ◌%◌, ◌^◌, ◌≤◌, ◌<◌, ◌≡◌, ◌++◌, some, true, ◌||◌, List, [], ◌∷◌, min, arith, inl, inr,
  Bool-cases, Option-cases,
}
use athera.Prelude.Result.{ok, err, Result-cases}
use athera.Prelude.BTreeMap.{get}
use athera.Frames.{Frame, alloc_frames}
use athera.Frames.Segments.{total, rounded, alloc_frames-total}
use athera.PageTable.{PageTableEntryFlags, AddressSpace, new_entry, leaf}
use athera.PageTable.Translate.{translate, IsTree}
use athera.MemoryMap.{enomem, efault, UserMapping, phys_at_offset, rounds}
use athera.MemoryMap.Pages.{Machine, After, zero_frames, copy_pages, unmap_range, rebuild}
use athera.MemoryMap.Entered.{SuppliesFrames, Entered}
use athera.MemoryMap.EnteredFrames.{AreAligned, map_frame-Entered}
use athera.MemoryMap.Backed.{phys_at_offset-total}

module _ (s : Machine) (ms : List UserMapping) (tid old_start old_end dest new_size : ℕ)
    (flags : PageTableEntryFlags) where
  -- The state of `rebuild` after the bytes are copied to `frames` and the old range is unmapped.
  unfoldable pub vacated : List Frame → After (Unit {0})
  vacated frames =
      let copied =
        copy_pages (zero_frames s.memory frames) ms old_start frames 0
          (rounds 0 (min (old_end - old_start) new_size)) in
      unmap_range
        (record s { allocator = (alloc_frames s.allocator new_size).0; memory = copied.0 }) ms tid
        old_start old_end

  -- The frames are whole pages, the space of the task is then a tree of tables, and the allocator
  -- gives it fresh pages for the tables on every round of the mapping.
  pub record Prepares (space : AddressSpace) : Type 0 where
    pub aligned :
        (frames : List Frame)
        → (alloc_frames s.allocator new_size).1 ≡ some frames
        → AreAligned frames
    pub found :
        (frames : List Frame)
        → (alloc_frames s.allocator new_size).1 ≡ some frames
        → get tid (vacated frames).machine.spaces.user ≡ some space
    pub supplied :
        (frames : List Frame)
        → (alloc_frames s.allocator new_size).1 ≡ some frames
        → SuppliesFrames (vacated frames).machine tid dest frames flags

  -- The `new_size` bytes from `dest` on translate to the bytes of frames of `alloc_frames`, the other
  -- addresses as after the old range was unmapped, and the list has the mapping.
  pub record Rebuilds (space : AddressSpace) (r : After (Unit {0})) : Type 0 where
    frames : List Frame
    given : (alloc_frames s.allocator new_size).1 ≡ some frames
    unmapped : (vacated frames).answer ≡ ok tt
    entered :
        Entered tid space dest (dest + total frames) (phys_at_offset frames) flags r.machine.spaces
    bytes :
        (off : ℕ)
        → off < new_size
        → (p : ℕ) × (phys_at_offset frames off ≡ some p)
          × (translate entered.space_after (dest + off) ≡ some (leaf new_entry p flags))
    recorded :
        r.mappings
        ≡ (vacated frames).mappings ++ (record { va = dest; frames = frames; flags = flags } ∷ [])

  -- When `rebuild` answers success, with flags for some access, at a page and with its frames below
  -- 2 ^ 39, where the space of the task is a tree of tables once the old range is unmapped and the
  -- allocator gives whole pages for the frames and fresh pages for the tables: the old range was
  -- unmapped, each of the `new_size` bytes from `dest` on translates in the tables of the space to its
  -- byte of the frames of `alloc_frames`, with the flags, every address below 2 ^ 39 outside of the
  -- frames translates as after the old range was unmapped, and the mapping is appended to the list.
  pub rebuild-Rebuilds :
      (space : AddressSpace)
      → IsTree space
      → (flags.r || flags.w || flags.x) ≡ true
      → dest % 4096 ≡ 0
      → dest + rounded new_size ≤ 2 ^ 39
      → Prepares space
      → (rebuild s ms tid old_start old_end dest new_size flags).answer ≡ ok tt
      → Rebuilds space (rebuild s ms tid old_start old_end dest new_size flags)
  unfolding rebuild vacated
  rebuild-Rebuilds space t rwx al h pr q =
      elim (Option-cases ((alloc_frames s.allocator new_size).1)) [
        | inl g ↦ let no : err enomem ≡ ok tt = rw (g, rebuild) at q in absurd (ground (arith, no))
        | inr (frames, g) ↦
            let copied =
              copy_pages (zero_frames s.memory frames) ms old_start frames 0
                (rounds 0 (min (old_end - old_start) new_size)) in
            elim (Bool-cases (copied.1)) [
              | inr c ↦
                  let no : err efault ≡ ok tt = rw (g, c, rebuild) at q in
                  absurd (ground (arith, no))
              | inl c ↦ elim (Result-cases (vacated frames).answer) [
                | inr (e, v) ↦
                    let no : err e ≡ ok tt = rw (g, c, v, rebuild) at q in
                    absurd (ground (arith, no))
                | inl (u, v) ↦
                    let sizes = alloc_frames-total s.allocator new_size frames g in
                    let (entered, listed) =
                      map_frame-Entered (vacated frames).machine (vacated frames).mappings tid dest
                        frames flags space (pr.found frames g) t al (pr.aligned frames g)
                        (omega (arith, sizes.0, h)) rwx (pr.supplied frames g)
                        (rw (g, c, v, rebuild) at q) in
                    rw (g, c, v, rebuild)
                      (record {
                        frames = frames;
                        given = g;
                        unmapped = v;
                        entered = entered;
                        bytes = λ off l.
                            let (p, e) =
                              phys_at_offset-total frames off (omega (arith, l, sizes.1)) in
                            (p, e, entered.inside off p e);
                        recorded = listed;
                      })
              ]
            ]
      ]
