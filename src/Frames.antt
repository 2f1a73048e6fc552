-- ===== src/Frames.antt =====
-- Frames over the buddy allocator: src/mm/frame.rs, `alloc_frame` and `alloc_frames` of
-- src/mm/allocator.rs, and the sizes of src/mm/allocator/buddy.rs. The one allocator behind
-- `FRAME_ALLOCATOR` is passed along, and physical memory is a function from addresses to bytes.
pub mod Segments
mod Tests
use athera.Prelude.{
  ℕ, zero, suc, ◌+◌, ◌-◌, ◌/◌, ◌≡◌, refl, Option, none, some, List, [], ◌∷◌, ◌++◌, ltb, leb, ◌&&◌,
  min, ◌==◌, if◌then◌else◌,
}
use athera.Buddy.{BuddyAllocator, alloc, dealloc, order_size, buddy_max_order, page_size_log_2}

abbrev pub page_size : ℕ
page_size = 4096

-- `usize::ilog2`, with as much fuel as a word has bits.
unfoldable pub ilog2 : ℕ → ℕ → ℕ
ilog2 zero n = 0
ilog2 (suc fuel) n = let rest = ilog2 fuel (n / 2) in if ltb n 2 then 0 else suc rest

-- Of a size that is not 0.
unfoldable pub ilog2_ceil : ℕ → ℕ
ilog2_ceil size = if size == 1 then 0 else ilog2 64 (size - 1) + 1

unfoldable pub size_to_order : ℕ → ℕ
size_to_order size =
    let n = ilog2_ceil size in
    if leb n page_size_log_2 then 0 else min (n - page_size_log_2) (buddy_max_order - 1)

pub record Frame : Type 0 where
  pub start : ℕ
  pub size : ℕ

unfoldable pub alloc_frame : BuddyAllocator → ℕ → BuddyAllocator × Option Frame
alloc_frame b size =
    let r = alloc b (size_to_order size) in
    (
      r.0,
      elim (r.1) [
        | none ↦ none
        | some start ↦ some (record { start = start; size = order_size (size_to_order size) })
      ],
    )

-- `Frame::drop`.
unfoldable pub drop_frame : BuddyAllocator → Frame → BuddyAllocator
drop_frame b f = dealloc b f.start (size_to_order f.size)

-- The drop of a vector of frames.
unfoldable pub drop_frames : BuddyAllocator → List Frame → BuddyAllocator
drop_frames b [] = b
drop_frames b (f ∷ fs) = drop_frames (drop_frame b f) fs

-- The loop of `alloc_frames`; a round takes at least one byte off `remaining`.
unfoldable pub alloc_frames_loop :
    ℕ → BuddyAllocator → ℕ → List Frame → BuddyAllocator × Option (List Frame)
alloc_frames_loop zero b remaining frames = (b, some frames)
alloc_frames_loop (suc fuel) b zero frames = (b, some frames)
alloc_frames_loop (suc fuel) b (suc n) frames =
    let r = alloc_frame b (suc n) in
    elim (r.1) [
      | none ↦ (drop_frames (r.0) frames, none)
      | some frame ↦ alloc_frames_loop fuel (r.0) (suc n - frame.size) (frames ++ (frame ∷ []))
    ]

unfoldable pub alloc_frames : BuddyAllocator → ℕ → BuddyAllocator × Option (List Frame)
alloc_frames b size = alloc_frames_loop size b size []

-- `ptr::copy`: the bytes at `target` are those that stood at `source`.
unfoldable pub copy : (ℕ → ℕ) → ℕ → ℕ → ℕ → ℕ → ℕ
copy memory source target count a =
    if leb target a && ltb a (target + count) then memory (source + (a - target)) else memory a

-- `ptr::write_bytes` of zeros.
unfoldable pub write_zeros : (ℕ → ℕ) → ℕ → ℕ → ℕ → ℕ
write_zeros memory start count a = if leb start a && ltb a (start + count) then 0 else memory a

-- `Frame::try_clone`.
unfoldable pub try_clone :
    BuddyAllocator → (ℕ → ℕ) → Frame → BuddyAllocator × (ℕ → ℕ) × Option Frame
try_clone b memory f =
    let r = alloc_frame b f.size in
    elim (r.1) [
      | none ↦ (r.0, memory, none)
      | some frame ↦ (r.0, copy memory f.start frame.start f.size, some frame)
    ]
