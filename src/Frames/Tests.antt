-- ===== src/Frames/Tests.antt =====
-- Three pages from an allocator with one block of eight.
use athera.Prelude.{◌^◌, ◌≤◌, ◌≡◌, refl, some, List, [], ◌∷◌, set, replicate}
use athera.Buddy.{BuddyAllocator, alloc, alloc_loop, split_down, push, order_size}
use athera.Frames.{
  Frame, ilog2, ilog2_ceil, size_to_order, alloc_frame, alloc_frames, alloc_frames_loop,
}
use athera.Frames.Segments.{total, rounded, alloc_frames-total}

abbrev eight_pages : BuddyAllocator
eight_pages = record { free_list = set (replicate 11 []) 3 (2 ^ 31 ∷ []) }

abbrev four_pages : List Frame
four_pages = record { start = 2 ^ 31; size = 16384 } ∷ []

taken : (alloc_frames eight_pages 12288).1 ≡ some four_pages
unfolding alloc_frames alloc_frames_loop alloc_frame size_to_order ilog2_ceil ilog2 alloc alloc_loop
    split_down push order_size
taken = refl

alloc_frames-total_example : (total four_pages ≡ rounded 12288) × (12288 ≤ total four_pages)
alloc_frames-total_example = alloc_frames-total eight_pages 12288 four_pages taken
