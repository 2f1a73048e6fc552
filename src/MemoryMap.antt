-- ===== src/MemoryMap.antt =====
-- The anonymous mappings of src/mm/memory_map.rs: the list of mappings of a task and the questions
-- that the system calls ask it. The children model the calls, over the allocator of
-- src/mm/allocator, the page tables of src/mm/page_table.rs and the bytes of physical memory.
pub mod Pages
pub mod Calls
pub mod Regions
pub mod Unmap
pub mod Align
pub mod Keeps
pub mod Unmapped
pub mod Released
pub mod Entered
pub mod EnteredFrames
pub mod Backed
pub mod Rebuilt
pub mod Mapped
pub mod Whole
pub mod Tasks
pub mod System
mod Tests
mod TableTests
use Prim.Native.Nat.{bit_and, bit_or}
use athera.Prelude.{
  ℕ, zero, suc, ◌+◌, ◌-◌, ◌*◌, ◌/◌, ◌^◌, Option, none, some, Bool, true, false, not, ◌&&◌, ◌||◌,
  List, [], ◌∷◌, ltb, leb, ◌==◌, if◌then◌else◌,
}
use athera.Prelude.Bits.{bit_not}
use athera.Frames.{Frame, page_size}
use athera.PageTable.{PageTableEntryFlags}

-- Of `ErrorCode`, the ones that these calls answer.
pub data ErrorCode : Type 0 where
  esrch : ErrorCode
  enomem : ErrorCode
  efault : ErrorCode
  eexist : ErrorCode
  einval : ErrorCode
  enosys : ErrorCode

pub record UserMapping : Type 0 where
  pub va : ℕ
  pub frames : List Frame
  pub flags : PageTableEntryFlags

abbrev pub user_stack_lower_bound : ℕ
user_stack_lower_bound = 2 ^ 32 - 4096 * 8

abbrev pub low_half_end : ℕ
low_half_end = 2 ^ 38

abbrev pub high_half_start : ℕ
high_half_start = 2 ^ 64 - 2 ^ 38

abbrev pub prot_mask : ℕ
prot_mask = 7

-- `addr & !(PAGE_SIZE - 1)`.
unfoldable pub page_start : ℕ → ℕ
page_start addr = bit_and addr (bit_not 64 (page_size - 1))

-- For an address whose last page ends below 2 ^ 64.
unfoldable pub align_up : ℕ → ℕ
align_up addr = page_start (addr + page_size - 1)

unfoldable pub frames_size : List Frame → ℕ
frames_size [] = 0
frames_size (f ∷ fs) = align_up f.size + frames_size fs

-- `mapping_range`, its start and its end.
unfoldable pub range_start : UserMapping → ℕ
range_start m = page_start m.va

unfoldable pub range_end : UserMapping → ℕ
range_end m = range_start m + frames_size m.frames

unfoldable pub overlaps : UserMapping → ℕ → ℕ → Bool
overlaps m start end = ltb (range_start m) end && ltb start (range_end m)

unfoldable pub range_is_free : List UserMapping → ℕ → ℕ → Bool
range_is_free [] start end = true
range_is_free (m ∷ ms) start end = not (overlaps m start end) && range_is_free ms start end

-- `none` stands for `unreachable!`.
unfoldable pub phys_at_offset : List Frame → ℕ → Option ℕ
phys_at_offset [] remaining = none
phys_at_offset (f ∷ fs) remaining =
    let rest = phys_at_offset fs (remaining - f.size) in
    if ltb remaining f.size then some (f.start + remaining) else rest

unfoldable pub page_phys : List UserMapping → ℕ → Option ℕ
page_phys [] va = none
page_phys (m ∷ ms) va =
    let rest = page_phys ms va in
    if leb (range_start m) va && ltb va (range_end m)
    then phys_at_offset m.frames (va - range_start m)
    else rest

abbrev pub is_some {ℓ} : {A : Type ℓ} → Option A → Bool
is_some none = false
is_some (some a) = true

-- The rounds of a loop over `(start..end).step_by(PAGE_SIZE)`.
unfoldable pub rounds : ℕ → ℕ → ℕ
rounds start end = (end - start + page_size - 1) / page_size

unfoldable pub all_mapped : List UserMapping → ℕ → ℕ → Bool
all_mapped ms va zero = true
all_mapped ms va (suc n) = is_some (page_phys ms va) && all_mapped ms (va + page_size) n

unfoldable pub range_fully_mapped : List UserMapping → ℕ → ℕ → Bool
range_fully_mapped ms start end = all_mapped ms start (rounds start end)

unfoldable pub flags_of_first : List UserMapping → ℕ → Option PageTableEntryFlags
flags_of_first [] va = none
flags_of_first (m ∷ ms) va =
    let rest = flags_of_first ms va in if overlaps m va (va + 1) then some m.flags else rest

-- The sort by start, from the last range to the first, as the search walks them.
unfoldable pub insert_range : ℕ × ℕ → List (ℕ × ℕ) → List (ℕ × ℕ)
insert_range r [] = r ∷ []
insert_range r (q ∷ qs) =
    let rest = insert_range r qs in if ltb (r.0) (q.0) then q ∷ rest else r ∷ q ∷ qs

-- The ranges that end below the stack.
unfoldable pub ranges_below : List UserMapping → List (ℕ × ℕ)
ranges_below [] = []
ranges_below (m ∷ ms) =
    let rest = ranges_below ms in
    if leb (range_end m) user_stack_lower_bound
    then insert_range (range_start m, range_end m) rest
    else rest

unfoldable pub find_below : List (ℕ × ℕ) → ℕ → ℕ → Option ℕ
find_below [] top length = if leb length top then some (top - length) else none
find_below (r ∷ rs) top length =
    let rest = find_below rs (r.0) length in
    if ltb (r.1) top && leb length (top - r.1) then some (top - length) else rest

unfoldable pub find_free_region : List UserMapping → ℕ → Option ℕ
find_free_region ms length = find_below (ranges_below ms) user_stack_lower_bound length

unfoldable pub is_canonical_user_range : ℕ → ℕ → Bool
is_canonical_user_range start end = leb end low_half_end || leb high_half_start start

unfoldable pub prot_to_page_flags : ℕ → PageTableEntryFlags
prot_to_page_flags prot = record {
  r = not (bit_and prot prot_mask == 0);
  w = not (bit_and prot 2 == 0);
  x = not (bit_and prot 4 == 0);
  u = true;
  g = false;
  a = true;
  d = true;
}
