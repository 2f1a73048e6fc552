-- ===== src/Buddy.antt =====
-- The buddy allocator of src/mm/allocator/buddy.rs and the list that it keeps per order. An
-- `IntrusiveList` stores each pointer in the first word of a free block; here it is the list of its
-- blocks, first block first, for distinct blocks at addresses other than 0. (On others the code makes
-- a cycle, or follows a null pointer.)
pub mod Cover
pub mod Alloc
pub mod Pairs
pub mod Dealloc
pub mod Add
mod Tests
use Prim.Native.Nat.{bit_and, bit_xor}
use athera.Prelude.Bits.{bit_not}
use athera.Prelude.{
  ℕ, zero, suc, ◌+◌, ◌-◌, ◌*◌, ◌/◌, ◌^◌, Option, none, some, Bool, true, false, List, [], ◌∷◌,
  length, get_or, set, replicate, ltb, leb, ◌==◌, if◌then◌else◌,
}

abbrev pub buddy_max_order : ℕ
buddy_max_order = 11

abbrev pub page_size_log_2 : ℕ
page_size_log_2 = 12

-- `IntrusiveList::remove`: the list without the first such block, or that there is none.
unfoldable pub remove : ℕ → List ℕ → Option (List ℕ)
remove item [] = none
remove item (x ∷ xs) =
    let rest = remove item xs in
    if x == item then some xs else elim rest [ none ↦ none | some ys ↦ some (x ∷ ys) ]

unfoldable pub order_size : ℕ → ℕ
order_size order = 2 ^ order * 2 ^ page_size_log_2

unfoldable pub buddy_address : ℕ → ℕ → ℕ
buddy_address base order = bit_xor base (order_size order)

pub record BuddyAllocator : Type 0 where
  pub free_list : List (List ℕ)

unfoldable pub new : BuddyAllocator
new = record { free_list = replicate buddy_max_order [] }

-- `self.free_list[order].push(block)`.
unfoldable pub push : List (List ℕ) → ℕ → ℕ → List (List ℕ)
push lists order block = set lists order (block ∷ get_or lists order [])

-- The loop of `alloc` that hands the upper halves back, at order `order + j` and below.
unfoldable pub split_down : List (List ℕ) → ℕ → ℕ → ℕ → List (List ℕ)
split_down lists chunk order zero = lists
split_down lists chunk order (suc j) =
    split_down (push lists (order + j) (chunk + order_size (order + j))) chunk order j

-- The outer loop of `alloc` at order `order + i`, with `k` orders to go.
unfoldable pub alloc_loop : List (List ℕ) → ℕ → ℕ → ℕ → List (List ℕ) × Option ℕ
alloc_loop lists order zero i = (lists, none)
alloc_loop lists order (suc k) i = elim (get_or lists (order + i) []) [
  | [] ↦ alloc_loop lists order k (i + 1)
  | chunk ∷ rest ↦ (split_down (set lists (order + i) rest) chunk order i, some chunk)
]

unfoldable pub alloc : BuddyAllocator → ℕ → BuddyAllocator × Option ℕ
alloc b order =
    let r = alloc_loop b.free_list order (length b.free_list - order) 0 in
    (record { free_list = r.0 }, r.1)

-- The loop of `dealloc` at order `i`, with `k` orders to go: the lists, the block and its order.
unfoldable pub merge : List (List ℕ) → ℕ → ℕ → ℕ → List (List ℕ) × ℕ × ℕ
merge lists zero i ptr = (lists, ptr, i)
merge lists (suc k) i ptr = elim (remove (buddy_address ptr i) (get_or lists i [])) [
  | none ↦ (lists, ptr, i)
  | some left ↦
      let lower = if ltb (buddy_address ptr i) ptr then buddy_address ptr i else ptr in
      if leb buddy_max_order (i + 1)
      then (set lists i left, lower, buddy_max_order - 1)
      else merge (set lists i left) k (i + 1) lower
]

unfoldable pub dealloc : BuddyAllocator → ℕ → ℕ → BuddyAllocator
dealloc b start order =
    let r = merge b.free_list (buddy_max_order - order) order start in
    record { free_list = push (r.0) (r.2) (r.1) }

-- `add_frame` at one order: `chunks` blocks in a row.
unfoldable pub add_chunks : List (List ℕ) → ℕ → ℕ → ℕ → List (List ℕ)
add_chunks lists order current zero = lists
add_chunks lists order current (suc n) =
    add_chunks (push lists order current) order (current + order_size order) n

-- The loop of `add_frame` below order `order`.
unfoldable pub add_orders : List (List ℕ) → ℕ → ℕ → ℕ → List (List ℕ)
add_orders lists zero current end = lists
add_orders lists (suc order) current end =
    let chunks = (end - current) / order_size order in
    let rest =
      add_orders (add_chunks lists order current chunks) order (current + chunks * order_size order)
        end in
    if leb end current then lists else rest

unfoldable pub add_frame : BuddyAllocator → ℕ → ℕ → BuddyAllocator
add_frame b start end = record { free_list = add_orders b.free_list buddy_max_order start end }

-- `constants::align` on 64-bit addresses, for a power of two.
unfoldable pub align : ℕ → ℕ → ℕ
align addr size = bit_and (addr + size - 1) (bit_not 64 (size - 1))

unfoldable pub add : BuddyAllocator → ℕ → ℕ → BuddyAllocator
add b start end = add_frame b (align start (2 ^ (buddy_max_order + 11))) end
