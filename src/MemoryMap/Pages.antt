-- ===== src/MemoryMap/Pages.antt =====
-- `map_frame`, `unmap_range` and `rebuild` of src/mm/memory_map.rs. A frame goes back to the
-- allocator where the code drops its owner, on every way out.
use athera.Prelude.{
  ℕ, zero, suc, ◌+◌, ◌-◌, Option, none, some, Bool, true, false, ◌||◌, List, [], ◌∷◌, ◌++◌, ltb,
  min, max, if◌then◌else◌,
}
use athera.Prelude.Result.{Result, ok, err}
use athera.Buddy.{BuddyAllocator}
use athera.Frames.{Frame, page_size, drop_frames, alloc_frames, copy, write_zeros}
use athera.PageTable.{
  MemError, out_of_memory, PageTableEntryFlags, AddressSpaceManager, user_map, user_unmap,
}
use athera.MemoryMap.{
  ErrorCode, einval, enomem, efault, UserMapping, range_start, range_end, overlaps, phys_at_offset,
  page_phys, rounds,
}

-- What the calls change beside the list of mappings.
pub record Machine : Type 0 where
  pub allocator : BuddyAllocator
  pub memory : ℕ → ℕ
  pub spaces : AddressSpaceManager

unfoldable pub mem_errno : MemError → ErrorCode
mem_errno out_of_memory = enomem
mem_errno e = einval

unfoldable pub drop_all : Machine → List Frame → Machine
drop_all s fs = record s { allocator = drop_frames s.allocator fs }

-- `n` pages from `va` on, whatever `user_unmap` answers.
unfoldable pub unmap_pages : AddressSpaceManager → ℕ → ℕ → ℕ → AddressSpaceManager
unmap_pages spaces tid va zero = spaces
unmap_pages spaces tid va (suc n) =
    unmap_pages ((user_unmap spaces tid va).0) tid (va + page_size) n

-- The inner loop of `map_frame`: `n` pages from `pa` to `va`. An error comes with the address that
-- failed.
unfoldable pub map_steps :
    Machine → ℕ → ℕ → ℕ → PageTableEntryFlags → ℕ → Machine × Option (ℕ × MemError)
map_steps s tid va pa flags zero = (s, none)
map_steps s tid va pa flags (suc n) =
    let r = user_map s.allocator s.spaces tid va pa flags in
    let s' : Machine = record s { allocator = r.0; spaces = r.1 } in
    elim (r.2) [
      | some e ↦ (s', some (va, e))
      | none ↦ map_steps s' tid (va + page_size) (pa + page_size) flags n
    ]

-- Its outer loop, over the frames.
unfoldable pub map_segments :
    Machine → ℕ → ℕ → List Frame → PageTableEntryFlags → Machine × Option (ℕ × MemError)
map_segments s tid va [] flags = (s, none)
map_segments s tid va (f ∷ fs) flags =
    let r = map_steps s tid va f.start flags (rounds 0 f.size) in
    elim (r.1) [ some e ↦ (r.0, some e) | none ↦ map_segments (r.0) tid (va + f.size) fs flags ]

-- What a call leaves and what it answers.
pub record After {ℓ} (A : Type ℓ) : Type ℓ where
  pub machine : Machine
  pub mappings : List UserMapping
  pub answer : Result A ErrorCode

abbrev pub finish {ℓ} : {A : Type ℓ} → Machine → List UserMapping → Result A ErrorCode → After A
finish s ms a = record { machine = s; mappings = ms; answer = a }

unfoldable pub map_frame :
    Machine → List UserMapping → ℕ → ℕ → List Frame → PageTableEntryFlags → After (Unit {0})
map_frame s ms tid addr frames flags =
    let r =
      if flags.r || flags.w || flags.x then map_segments s tid addr frames flags else (s, none) in
    elim (r.1) [
      | none ↦
          finish (r.0) (ms ++ (record { va = addr; frames = frames; flags = flags } ∷ [])) (ok tt)
      | some (failed, e) ↦
          let back = unmap_pages (r.0).spaces tid addr (rounds addr failed) in
          finish (drop_all (record (r.0) { spaces = back }) frames) ms (err (mem_errno e))
    ]

unfoldable pub zero_frames : (ℕ → ℕ) → List Frame → ℕ → ℕ
zero_frames memory [] = memory
zero_frames memory (f ∷ fs) = zero_frames (write_zeros memory f.start f.size) fs

pub record Keep : Type 0 where
  pub va : ℕ
  pub size : ℕ
  pub flags : PageTableEntryFlags

-- The parts of a mapping that lie outside of `[start, end)`, left part first.
unfoldable pub keeps_of : UserMapping → ℕ → ℕ → List Keep
keeps_of m start end =
    let s = range_start m in
    let e = range_end m in
    let o_start = max s start in
    let o_end = min e end in
    let right : List Keep =
      if ltb o_end e then record { va = o_end; size = e - o_end; flags = m.flags } ∷ [] else [] in
    if ltb s o_start then record { va = s; size = o_start - s; flags = m.flags } ∷ right else right

unfoldable pub all_keeps : List UserMapping → ℕ → ℕ → List Keep
all_keeps [] start end = []
all_keeps (m ∷ ms) start end =
    let rest = all_keeps ms start end in
    if overlaps m start end then keeps_of m start end ++ rest else rest

-- The copy of `n` pages, from the mappings at `va` to the frames at offset `off`; false is the
-- return of EFAULT.
unfoldable pub copy_pages : (ℕ → ℕ) → List UserMapping → ℕ → List Frame → ℕ → ℕ → (ℕ → ℕ) × Bool
copy_pages memory ms va frames off zero = (memory, true)
copy_pages memory ms va frames off (suc n) = elim (page_phys ms (va + off)) [
  | none ↦ (memory, false)
  | some source ↦ elim (phys_at_offset frames off) [
    | none ↦ (memory, false)
    | some target ↦
        copy_pages (copy memory source target page_size) ms va frames (off + page_size) n
  ]
]

unfoldable pub drop_buffers : Machine → List (List Frame × Keep) → Machine
drop_buffers s [] = s
drop_buffers s (b ∷ bs) = drop_buffers (drop_all s (b.0)) bs

-- Step 2 of `unmap_range`: frames for the parts to keep, with their bytes.
unfoldable pub back_up :
    Machine
    → List UserMapping
    → List Keep
    → List (List Frame × Keep)
    → Machine × Result (List (List Frame × Keep)) ErrorCode
back_up s ms [] buffers = (s, ok buffers)
back_up s ms (k ∷ ks) buffers =
    let r = alloc_frames s.allocator k.size in
    let s' : Machine = record s { allocator = r.0 } in
    elim (r.1) [
      | none ↦ (drop_buffers s' buffers, err enomem)
      | some frames ↦
          let c = copy_pages s.memory ms k.va frames 0 (rounds 0 k.size) in
          let s'' : Machine = record s' { memory = c.0 } in
          elim (c.1) [
            | false ↦ (drop_buffers (drop_all s'' frames) buffers, err efault)
            | true ↦ back_up s'' ms ks (buffers ++ ((frames, k) ∷ []))
          ]
    ]

-- Step 3: the mappings that overlap are removed, the last one first.
unfoldable pub tear_down : Machine → List UserMapping → ℕ → ℕ → ℕ → Machine × List UserMapping
tear_down s [] tid start end = (s, [])
tear_down s (m ∷ ms) tid start end =
    let r = tear_down s ms tid start end in
    let pages = rounds (range_start m) (range_end m) in
    let spaces = unmap_pages (r.0).spaces tid (range_start m) pages in
    if overlaps m start end
    then (drop_all (record (r.0) { spaces = spaces }) m.frames, r.1)
    else (r.0, m ∷ r.1)

-- Step 4: the kept parts are mapped again.
unfoldable pub remap : Machine → List UserMapping → ℕ → List (List Frame × Keep) → After (Unit {0})
remap s ms tid [] = finish s ms (ok tt)
remap s ms tid (b ∷ bs) =
    let r = map_frame s ms tid (b.1).va (b.0) (b.1).flags in
    elim r.answer [
      | err e ↦ finish (drop_buffers r.machine bs) r.mappings (err e)
      | ok u ↦ remap r.machine r.mappings tid bs
    ]

unfoldable pub unmap_range : Machine → List UserMapping → ℕ → ℕ → ℕ → After (Unit {0})
unmap_range s ms tid start end =
    let saved = back_up s ms (all_keeps ms start end) [] in
    elim (saved.1) [
      | err e ↦ finish (saved.0) ms (err e)
      | ok buffers ↦
          let torn = tear_down (saved.0) ms tid start end in remap (torn.0) (torn.1) tid buffers
    ]

unfoldable pub rebuild :
    Machine → List UserMapping → ℕ → ℕ → ℕ → ℕ → ℕ → PageTableEntryFlags → After (Unit {0})
rebuild s ms tid old_start old_end dest new_size flags =
    let copy_len = min (old_end - old_start) new_size in
    let r = alloc_frames s.allocator new_size in
    let s' : Machine = record s { allocator = r.0 } in
    elim (r.1) [
      | none ↦ finish s' ms (err enomem)
      | some frames ↦
          let c =
            copy_pages (zero_frames s.memory frames) ms old_start frames 0 (rounds 0 copy_len) in
          let s'' : Machine = record s' { memory = c.0 } in
          elim (c.1) [
            | false ↦ finish (drop_all s'' frames) ms (err efault)
            | true ↦
                let u = unmap_range s'' ms tid old_start old_end in
                elim u.answer [
                  | err e ↦ finish (drop_all u.machine frames) u.mappings (err e)
                  | ok a ↦ map_frame u.machine u.mappings tid dest frames flags
                ]
          ]
    ]
