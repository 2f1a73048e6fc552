-- ===== src/MemoryMap/Tests.antt =====
-- A task with the page tables of an empty address space, and an allocator with eight pages.
use athera.Prelude.{
  ℕ, ◌+◌, ◌-◌, ◌*◌, ◌^◌, ◌≡◌, refl, inl, true, false, [], ◌∷◌, set, replicate, arith,
}
use athera.Prelude.Result.{ok}
use athera.Prelude.BTreeMap.{empty, entry, get, insert}
use athera.Buddy.{
  BuddyAllocator, alloc, alloc_loop, split_down, push, order_size, dealloc, merge, buddy_address,
  remove,
}
use athera.Frames.{
  ilog2, ilog2_ceil, size_to_order, alloc_frame, alloc_frames, alloc_frames_loop, drop_frame,
  drop_frames,
}
use athera.PageTable.{
  PageTableHandle, AddressSpace, AddressSpaceManager, new_entry, user_map, user_unmap, map_root,
  map_middle, map_leaf, create, vpn0, vpn1, vpn2, write, link, target, leaf, ppn, phys_addr,
}
use athera.PageTable as Tables
use athera.MemoryMap.{
  UserMapping, page_start, align_up, frames_size, range_start, range_end, overlaps, range_is_free,
  insert_range, ranges_below, find_below, find_free_region, is_canonical_user_range,
  prot_to_page_flags, rounds, page_phys, phys_at_offset, all_mapped, range_fully_mapped,
  flags_of_first,
}
use athera.MemoryMap.Pages.{
  Machine, map_frame, map_segments, map_steps, unmap_pages, drop_all, keeps_of, all_keeps,
  copy_pages, back_up, tear_down, remap, unmap_range, rebuild,
}
use athera.MemoryMap.Calls.{
  System, checked_add, is_multiple_of, with_task, is_noreplace, is_fixed, mmap_target, mmap_fill,
  mmap_task, mmap, rebuild_at, move_to, grow_in_place, mremap_task, is_refused, mremap,
}
use athera.MemoryMap.Regions.{IsMap, FindsRegion, find_free_region-FindsRegion}
use athera.MemoryMap.Unmap.{Unmaps, unmap_range-Unmaps}
use athera.MemoryMap.Mapped.{Adds, mmap_task-Adds}

abbrev root : PageTableHandle
root = record { page = record { start = 4096; size = 4096 }; entries = λ i. new_entry }

abbrev space : AddressSpace
space = record { root = root; tables = empty }

abbrev eight_pages : BuddyAllocator
eight_pages = record { free_list = set (replicate 11 []) 3 (2 ^ 31 ∷ []) }

abbrev machine : Machine
machine = record {
  allocator = eight_pages;
  memory = λ a. 0;
  spaces = record { kernel = space; user = entry 1 space empty };
}

abbrev fresh : System
fresh = record { machine = machine; tasks = entry 1 [] empty }

-- The end of the lowest three pages below the stack.
abbrev three_below : ℕ
three_below = 2 ^ 32 - 4096 * 11

three_pages : (mmap fresh 1 0 12288 3 34 true 0).1 ≡ ok three_below
unfolding mmap with_task mmap_task mmap_target mmap_fill is_fixed is_noreplace checked_add
    is_multiple_of find_free_region find_below ranges_below is_canonical_user_range range_is_free
    align_up page_start alloc_frames alloc_frames_loop alloc_frame size_to_order ilog2_ceil ilog2
    alloc alloc_loop split_down push order_size map_frame map_segments map_steps prot_to_page_flags
    rounds user_map Tables.map map_root map_middle map_leaf create get insert vpn0 vpn1 vpn2 write
    link target leaf ppn phys_addr
three_pages = refl

-- The three pages get a block of four, which reaches over the lower end of the stack, and the search
-- for one more page then answers the last of the three.
one_more :
    (mmap ((mmap fresh 1 0 12288 3 34 true 0).0) 1 0 4096 3 34 true 0).1 ≡ ok (2 ^ 32 - 4096 * 9)
unfolding mmap with_task mmap_task mmap_target mmap_fill is_fixed is_noreplace checked_add
    is_multiple_of find_free_region find_below ranges_below is_canonical_user_range range_is_free
    align_up page_start alloc_frames alloc_frames_loop alloc_frame size_to_order ilog2_ceil ilog2
    alloc alloc_loop split_down push order_size map_frame map_segments map_steps prot_to_page_flags
    rounds user_map Tables.map map_root map_middle map_leaf create get insert vpn0 vpn1 vpn2 write
    link target leaf ppn phys_addr overlaps range_start range_end frames_size insert_range
one_more = refl

-- A mapping of one page, right below the stack.
abbrev one_page : UserMapping
one_page = record {
  va = 2 ^ 32 - 4096 * 9;
  frames = record { start = 2 ^ 31 + 2 ^ 20; size = 4096 } ∷ [];
  flags = record { r = true; w = true; x = false; u = true; g = false; a = true; d = true };
}

abbrev one_mapped : System
one_mapped = record { machine = machine; tasks = entry 1 (one_page ∷ []) empty }

two_pages : (mremap one_mapped 1 (2 ^ 32 - 4096 * 9) 4096 8192 1 0).1 ≡ ok (2 ^ 32 - 4096 * 9)
unfolding mremap mremap_task is_refused with_task rebuild_at rebuild flags_of_first grow_in_place
    move_to range_fully_mapped all_mapped page_phys phys_at_offset unmap_range back_up all_keeps
    keeps_of tear_down remap unmap_pages drop_all drop_frames drop_frame copy_pages user_unmap
    Tables.unmap checked_add is_multiple_of find_free_region find_below ranges_below
    is_canonical_user_range range_is_free align_up page_start alloc_frames alloc_frames_loop
    alloc_frame size_to_order ilog2_ceil ilog2 alloc alloc_loop dealloc merge buddy_address remove
    split_down push order_size map_frame map_segments map_steps rounds user_map Tables.map map_root
    map_middle map_leaf create get insert vpn0 vpn1 vpn2 write link target leaf ppn phys_addr
    overlaps range_start range_end frames_size insert_range
two_pages = refl

one-IsMap : IsMap (one_page ∷ [])
unfolding range_end range_start frames_size align_up page_start range_is_free
one-IsMap = (omega arith, refl, tt)

find_free_region-FindsRegion_example :
    FindsRegion (one_page ∷ []) 8192 (find_free_region (one_page ∷ []) 8192)
find_free_region-FindsRegion_example =
    find_free_region-FindsRegion (one_page ∷ []) 8192 (omega arith) one-IsMap
      (inl (unfold range_end range_start frames_size align_up page_start in omega arith), tt)

mmap_task-Adds_example :
    Adds
      (one_page ∷ [])
      8192
      (prot_to_page_flags 3)
      (mmap_task machine 1 0 8192 3 34 (one_page ∷ []))
mmap_task-Adds_example =
    mmap_task-Adds machine 1 0 8192 3 34 (one_page ∷ []) (omega arith) one-IsMap
      (inl (unfold range_end range_start frames_size align_up page_start in omega arith), tt)
      (unfold is_fixed is_noreplace in refl)

-- Four pages in a row, of which the third and fourth are unmapped.
abbrev four_pages : UserMapping
four_pages = record {
  va = 2 ^ 20;
  frames = record { start = 2 ^ 31 + 2 ^ 20; size = 16384 } ∷ [];
  flags = record { r = true; w = true; x = false; u = true; g = false; a = true; d = true };
}

unmap_range-Unmaps_example :
    Unmaps machine
      (four_pages ∷ [])
      (2 ^ 20 + 8192)
      (2 ^ 20 + 16384)
      (unmap_range machine (four_pages ∷ []) 1 (2 ^ 20 + 8192) (2 ^ 20 + 16384))
unmap_range-Unmaps_example =
    unmap_range-Unmaps machine (four_pages ∷ []) 1 (2 ^ 20 + 8192) (2 ^ 20 + 16384)

halved : (unmap_range machine (four_pages ∷ []) 1 (2 ^ 20 + 8192) (2 ^ 20 + 16384)).answer ≡ ok tt
unfolding unmap_range back_up all_keeps keeps_of page_phys phys_at_offset tear_down remap
    unmap_pages drop_all drop_frames drop_frame copy_pages user_unmap Tables.unmap align_up
    page_start alloc_frames alloc_frames_loop alloc_frame size_to_order ilog2_ceil ilog2 alloc
    alloc_loop dealloc merge buddy_address remove split_down push order_size map_frame map_segments
    map_steps rounds user_map Tables.map map_root map_middle map_leaf create get insert vpn0 vpn1
    vpn2 write link target leaf ppn phys_addr overlaps range_start range_end frames_size
halved = refl

-- Without the last page a part of three is kept, and its block of four holds the last page again.
abbrev last_page : ℕ
last_page = 2 ^ 20 + 12288

kept_mapped :
    range_is_free
      (unmap_range machine (four_pages ∷ []) 1 last_page (last_page + 4096)).mappings
      last_page
      (last_page + 1)
    ≡ false
unfolding unmap_range back_up all_keeps keeps_of page_phys phys_at_offset tear_down remap
    unmap_pages drop_all drop_frames drop_frame copy_pages user_unmap Tables.unmap align_up
    page_start alloc_frames alloc_frames_loop alloc_frame size_to_order ilog2_ceil ilog2 alloc
    alloc_loop dealloc merge buddy_address remove split_down push order_size map_frame map_segments
    map_steps rounds user_map Tables.map map_root map_middle map_leaf create get insert vpn0 vpn1
    vpn2 write link target leaf ppn phys_addr overlaps range_start range_end frames_size
    range_is_free
kept_mapped = refl
