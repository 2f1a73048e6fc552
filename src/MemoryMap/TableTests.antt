-- ===== src/MemoryMap/TableTests.antt =====
-- Tasks at which the theorems on the page tables after `mmap` and `unmap_range` of
-- src/mm/memory_map.rs are applied.
use athera.Prelude.{ℕ, ◌+◌, ◌^◌, ◌≡◌, ◌++◌, refl, subst, some, true, false, List, [], ◌∷◌, arith}
use athera.Prelude.Result.{ok}
use athera.Prelude.BTreeMap.{empty, entry, get, insert}
use athera.Buddy.{dealloc, merge, buddy_address, remove}
use athera.Buddy.{alloc, alloc_loop, split_down, push, order_size}
use athera.Frames.{drop_frame, drop_frames}
use athera.Frames.{
  Frame, ilog2, ilog2_ceil, size_to_order, alloc_frame, alloc_frames, alloc_frames_loop,
}
use athera.Frames.Segments.{total, rounded, rounded_loop, frame_size}
use athera.PageTable.{user_unmap}
use athera.PageTable.{
  PageTableEntryFlags, AddressSpace, user_map, map_root, map_middle, map_leaf, create, vpn0, vpn1,
  vpn2, write, link, target, leaf, ppn, phys_addr,
}
use athera.PageTable as Tables
use athera.PageTable.Root.{Provides, with_root}
use athera.PageTable.Hardware.{in_memory}
use athera.PageTable.Tests.{
  space, eight_pages, space-IsTree, space-IsFresh, linked-IsFresh, start_of, user_space,
  kernel_tables, user_space-IsTree,
}
use athera.MemoryMap.{page_phys}
use athera.MemoryMap.{
  UserMapping, page_start, align_up, frames_size, range_start, range_end, overlaps, range_is_free,
  is_canonical_user_range, prot_to_page_flags, rounds, phys_at_offset,
}
use athera.MemoryMap.Pages.{
  back_up, tear_down, remap, unmap_pages, drop_all, copy_pages, rebuild, Machine, map_frame,
  map_segments, map_steps, keeps_of, all_keeps, unmap_range,
}
use athera.MemoryMap.Calls.{
  checked_add, is_multiple_of, is_noreplace, is_fixed, mmap_target, mmap_fill, mmap_task,
}
use athera.MemoryMap.Rebuilt.{vacated, Prepares, Rebuilds, rebuild-Rebuilds}
use athera.MemoryMap.Released.{Releases, unmap_range-Releases}
use athera.MemoryMap.Entered.{Supplies, SuppliesPages, SuppliesFrames, Entered}
use athera.MemoryMap.EnteredFrames.{AreAligned, map_frame-Entered}
use athera.MemoryMap.Backed.{cleared, Equips, Backs, mmap_task-Backs}

-- One page at the start of the high half of the table, in a space that maps it.
abbrev high_page : UserMapping
high_page = record {
  va = 2 ^ 38;
  frames = record { start = 20480; size = 4096 } ∷ [];
  flags = record { r = true; w = true; x = false; u = true; g = false; a = true; d = true };
}

abbrev user_machine : Machine
user_machine = record {
  allocator = eight_pages;
  memory = λ a. 0;
  spaces = record { kernel = space; user = entry 1 (in_memory user_space kernel_tables) empty };
}

no_keeps : all_keeps (high_page ∷ []) (2 ^ 38) (2 ^ 38 + 4096) ≡ []
unfolding all_keeps keeps_of overlaps range_start range_end frames_size align_up page_start
no_keeps = refl

unmap_range-Releases_example :
    Releases
      (high_page ∷ [])
      1
      (2 ^ 38)
      (2 ^ 38 + 4096)
      (in_memory user_space kernel_tables)
      (unmap_range user_machine (high_page ∷ []) 1 (2 ^ 38) (2 ^ 38 + 4096))
unmap_range-Releases_example =
    unmap_range-Releases user_machine (high_page ∷ []) 1 (2 ^ 38) (2 ^ 38 + 4096)
      (in_memory user_space kernel_tables) (omega arith, tt) (unfold get in refl) user_space-IsTree
      no_keeps

-- A task without mappings.
abbrev machine : Machine
machine = record {
  allocator = eight_pages;
  memory = λ a. 0;
  spaces = record { kernel = space; user = entry 1 space empty };
}

space_of : (s : AddressSpace) → some space ≡ some s → space ≡ s
space_of s e = ground (arith, e)

-- `eight_pages` gives the first of its pages.
page_given :
    (frames : List Frame)
    → (alloc_frames eight_pages 4096).1 ≡ some frames
    → record { start = 2 ^ 31; size = 4096 } ∷ [] ≡ frames
unfolding alloc_frames alloc_frames_loop alloc_frame size_to_order ilog2_ceil ilog2 alloc alloc_loop
    split_down push order_size
page_given frames e = ground (arith, e)

-- After one page the allocator gives the next two to the tables.
supplied :
    (memory : ℕ → ℕ)
    → Supplies
        (record machine { allocator = (alloc_frames eight_pages 4096).0; memory = memory })
        1
        (2 ^ 20)
unfolding get map_root create with_root alloc_frames alloc_frames_loop alloc_frame size_to_order
    ilog2_ceil ilog2 alloc alloc_loop split_down push order_size
supplied memory = record {
  root = λ s e.
      subst (λ s. Provides ((alloc_frames eight_pages 4096).0) s) (space_of s e)
        (record {
          fresh = λ page q.
              let at =
                start_of (2 ^ 31 + 4096) (record { start = 2 ^ 31 + 4096; size = 4096 }) page refl
                  q in
              rw at (space-IsFresh (2 ^ 31 + 4096) (omega arith) (omega arith));
        });
  middle = λ s e.
      subst
        (λ s.
          Provides ((map_root ((alloc_frames eight_pages 4096).0) s (2 ^ 20)).0)
            ((map_root ((alloc_frames eight_pages 4096).0) s (2 ^ 20)).1))
        (space_of s e)
        (record {
          fresh = λ page q.
              let at =
                start_of (2 ^ 31 + 8192) (record { start = 2 ^ 31 + 8192; size = 4096 }) page refl
                  q in
              rw at (
                linked-IsFresh (2 ^ 31 + 4096) (2 ^ 31 + 8192) (2 ^ 20) (omega arith) (omega arith)
                  (omega arith) (omega arith) (λ e. omega (arith, e)));
        });
}

equipped : Equips machine 1 (2 ^ 20) 4096 (prot_to_page_flags 3)
unfolding SuppliesFrames SuppliesPages rounds cleared
equipped = record {
  aligned = λ frames e. subst AreAligned (page_given frames e) (refl, refl, tt);
  supplied = λ frames e.
      subst (λ fs. SuppliesFrames (cleared machine 4096 fs) 1 (2 ^ 20) fs (prot_to_page_flags 3))
        (page_given frames e) ((supplied _, tt), tt);
}

answered : (mmap_task machine 1 (2 ^ 20) 4096 3 34 []).answer ≡ ok (2 ^ 20)
unfolding mmap_task mmap_target mmap_fill is_fixed is_noreplace checked_add is_multiple_of
    is_canonical_user_range range_is_free alloc_frames alloc_frames_loop alloc_frame size_to_order
    ilog2_ceil ilog2 alloc alloc_loop split_down push order_size map_frame map_segments map_steps
    prot_to_page_flags rounds user_map Tables.map map_root map_middle map_leaf create get insert
    vpn0 vpn1 vpn2 write link target leaf ppn phys_addr
answered = refl

mmap_task-Backs_example :
    Backs machine [] 1
      (2 ^ 20)
      4096
      (prot_to_page_flags 3)
      space
      (mmap_task machine 1 (2 ^ 20) 4096 3 34 [])
mmap_task-Backs_example =
    mmap_task-Backs machine [] 1 (2 ^ 20) 4096 3 34 (2 ^ 20) space tt (omega arith) (omega arith)
      (unfold is_fixed is_noreplace in refl) (unfold prot_to_page_flags in refl)
      (unfold get in refl) space-IsTree
      (unfold rounded rounded_loop frame_size order_size size_to_order ilog2_ceil ilog2 in
        omega arith)
      equipped answered

abbrev one_page : List Frame
one_page = record { start = 2 ^ 31; size = 4096 } ∷ []

given : (alloc_frames eight_pages 4096).1 ≡ some one_page
unfolding alloc_frames alloc_frames_loop alloc_frame size_to_order ilog2_ceil ilog2 alloc alloc_loop
    split_down push order_size
given = refl

entered_answer :
    (map_frame (cleared machine 4096 one_page) [] 1 (2 ^ 20) one_page (prot_to_page_flags 3)).answer
    ≡ ok tt
unfolding cleared alloc_frames alloc_frames_loop alloc_frame size_to_order ilog2_ceil ilog2 alloc
    alloc_loop split_down push order_size map_frame map_segments map_steps prot_to_page_flags rounds
    user_map Tables.map map_root map_middle map_leaf create get insert vpn0 vpn1 vpn2 write link
    target leaf ppn phys_addr
entered_answer = refl

map_frame-Entered_example :
    Entered 1 space
      (2 ^ 20)
      (2 ^ 20 + total one_page)
      (phys_at_offset one_page)
      (prot_to_page_flags 3)
      ((map_frame
        (cleared machine 4096 one_page)
        []
        1
        (2 ^ 20)
        one_page
        (prot_to_page_flags 3)).machine.spaces)
    × ((map_frame
          (cleared machine 4096 one_page)
          []
          1
          (2 ^ 20)
          one_page
          (prot_to_page_flags 3)).mappings
        ≡ [] ++ (record { va = 2 ^ 20; frames = one_page; flags = prot_to_page_flags 3 } ∷ []))
map_frame-Entered_example =
    map_frame-Entered (cleared machine 4096 one_page) [] 1 (2 ^ 20) one_page (prot_to_page_flags 3)
      space (unfold get cleared in refl) space-IsTree (omega arith) (refl, refl, tt)
      (unfold total in omega arith) (unfold prot_to_page_flags in refl)
      (equipped.supplied one_page given) entered_answer

-- A mapping of one page, rebuilt at 2 ^ 20: its frame goes back, and is the first of the tables.
abbrev old_page : UserMapping
old_page = record {
  va = 2 ^ 30;
  frames = record { start = 2 ^ 31 + 2 ^ 20; size = 4096 } ∷ [];
  flags = prot_to_page_flags 3;
}

-- The state in which `rebuild` maps the new frames.
abbrev emptied : List Frame → Machine
emptied frames =
    (vacated machine (old_page ∷ []) 1 (2 ^ 30) (2 ^ 30 + 4096) (2 ^ 20) 4096 (prot_to_page_flags 3)
      frames).machine

rebuild_supplied : Supplies (emptied one_page) 1 (2 ^ 20)
unfolding vacated unmap_range back_up all_keeps keeps_of tear_down remap unmap_pages drop_all
    drop_frames drop_frame copy_pages user_unmap Tables.unmap page_phys phys_at_offset align_up
    page_start dealloc merge buddy_address remove overlaps range_start range_end frames_size rounds
    get insert map_root create with_root alloc_frames alloc_frames_loop alloc_frame size_to_order
    ilog2_ceil ilog2 alloc alloc_loop split_down push order_size vpn2
rebuild_supplied = record {
  root = λ s e.
      subst (λ s. Provides (emptied one_page).allocator s) (space_of s e)
        (record {
          fresh = λ page q.
              let at =
                start_of (2 ^ 31 + 2 ^ 20) (record { start = 2 ^ 31 + 2 ^ 20; size = 4096 }) page
                  refl q in
              rw at (space-IsFresh (2 ^ 31 + 2 ^ 20) (omega arith) (omega arith));
        });
  middle = λ s e.
      subst
        (λ s.
          Provides ((map_root (emptied one_page).allocator s (2 ^ 20)).0)
            ((map_root (emptied one_page).allocator s (2 ^ 20)).1))
        (space_of s e)
        (record {
          fresh = λ page q.
              let at =
                start_of (2 ^ 31 + 4096) (record { start = 2 ^ 31 + 4096; size = 4096 }) page refl
                  q in
              rw at (
                linked-IsFresh (2 ^ 31 + 2 ^ 20) (2 ^ 31 + 4096) (2 ^ 20) (omega arith)
                  (omega arith) (omega arith) (omega arith) (λ e. omega (arith, e)));
        });
}

prepared :
    Prepares machine
      (old_page ∷ [])
      1
      (2 ^ 30)
      (2 ^ 30 + 4096)
      (2 ^ 20)
      4096
      (prot_to_page_flags 3)
      space
unfolding SuppliesFrames SuppliesPages vacated unmap_range back_up all_keeps keeps_of tear_down
    remap unmap_pages drop_all drop_frames drop_frame copy_pages user_unmap Tables.unmap page_phys
    phys_at_offset align_up page_start dealloc merge buddy_address remove overlaps range_start
    range_end frames_size rounds get insert alloc_frames alloc_frames_loop alloc_frame size_to_order
    ilog2_ceil ilog2 alloc alloc_loop split_down push order_size vpn2
prepared = record {
  aligned = λ frames e. subst AreAligned (page_given frames e) (refl, refl, tt);
  found = λ frames e.
      subst (λ fs. get 1 (emptied fs).spaces.user ≡ some space) (page_given frames e) refl;
  supplied = λ frames e.
      subst (λ fs. SuppliesFrames (emptied fs) 1 (2 ^ 20) fs (prot_to_page_flags 3))
        (page_given frames e) ((rebuild_supplied, tt), tt);
}

rebuilt :
    (rebuild machine
      (old_page ∷ [])
      1
      (2 ^ 30)
      (2 ^ 30 + 4096)
      (2 ^ 20)
      4096
      (prot_to_page_flags 3)).answer
    ≡ ok tt
unfolding rebuild unmap_range back_up all_keeps keeps_of tear_down remap unmap_pages drop_all
    drop_frames drop_frame copy_pages user_unmap Tables.unmap page_phys phys_at_offset align_up
    page_start dealloc merge buddy_address remove overlaps range_start range_end frames_size rounds
    get insert alloc_frames alloc_frames_loop alloc_frame size_to_order ilog2_ceil ilog2 alloc
    alloc_loop split_down push order_size map_frame map_segments map_steps user_map Tables.map
    map_root map_middle map_leaf create vpn0 vpn1 vpn2 write link target leaf ppn phys_addr
    prot_to_page_flags
rebuilt = refl

rebuild-Rebuilds_example :
    Rebuilds machine
      (old_page ∷ [])
      1
      (2 ^ 30)
      (2 ^ 30 + 4096)
      (2 ^ 20)
      4096
      (prot_to_page_flags 3)
      space
      (rebuild machine
        (old_page ∷ [])
        1
        (2 ^ 30)
        (2 ^ 30 + 4096)
        (2 ^ 20)
        4096
        (prot_to_page_flags 3))
rebuild-Rebuilds_example =
    rebuild-Rebuilds machine (old_page ∷ []) 1 (2 ^ 30) (2 ^ 30 + 4096) (2 ^ 20) 4096
      (prot_to_page_flags 3) space space-IsTree (unfold prot_to_page_flags in refl) (omega arith)
      (unfold rounded rounded_loop frame_size order_size size_to_order ilog2_ceil ilog2 in
        omega arith)
      prepared rebuilt
