-- ===== src/Buddy/Tests.antt =====
-- The theorems about the buddy allocator at one free block of 4 MiB, and the block that it loses.
use athera.Prelude.{◌≡◌, refl, some, [], ◌∷◌, arith}
use athera.Buddy.{
  BuddyAllocator, alloc_loop, remove, buddy_address, order_size, push, merge, alloc, dealloc,
}
use athera.Buddy.Alloc.{Grants, alloc-Grants}
use athera.Buddy.Dealloc.{Frees, dealloc-Frees}

-- One free block of the highest order, 4 MiB at 0x80400000.
abbrev sample : BuddyAllocator
sample = record {
  free_list = [] ∷ [] ∷ [] ∷ [] ∷ [] ∷ [] ∷ [] ∷ [] ∷ [] ∷ [] ∷ (0x80400000 ∷ []) ∷ [];
}

-- Its buddy at 0x80000000 is given back: one block is left of the two.
top_block_lost :
    (dealloc sample 0x80000000 10).free_list
    ≡ [] ∷ [] ∷ [] ∷ [] ∷ [] ∷ [] ∷ [] ∷ [] ∷ [] ∷ [] ∷ (0x80000000 ∷ []) ∷ []
unfolding dealloc merge remove buddy_address order_size push
top_block_lost = refl

-- A page out of the block: the lower half is split down to one page.
page_split : (alloc sample 0).1 ≡ some 0x80400000
unfolding alloc alloc_loop
page_split = refl

alloc-Grants_example : Grants sample.free_list 3 ((alloc sample 3).0.free_list, (alloc sample 3).1)
alloc-Grants_example = alloc-Grants sample 3

dealloc-Frees_example :
    Frees sample.free_list 0x80001000 0 ((dealloc sample 0x80001000 0).free_list)
dealloc-Frees_example =
    dealloc-Frees sample 0x80001000 0 refl (omega arith) (0x80001, unfold order_size in refl)
