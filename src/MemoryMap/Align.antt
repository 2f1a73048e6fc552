-- ===== src/MemoryMap/Align.antt =====
-- The page arithmetic of src/mm/memory_map.rs on words and on blocks of the allocator.
use athera.Prelude.{ℕ, ◌+◌, ◌-◌, ◌*◌, ◌%◌, ◌^◌, ◌<◌, ◌≡◌, refl, List, [], ◌∷◌, arith}
use athera.Prelude.Bits.{bit_and-bit_not, bit_and_mask, pow-lt}
use athera.Buddy.{order_size, buddy_max_order}
use athera.Frames.{Frame, page_size}
use athera.Frames.Segments.{total, Blocks, no_block, block}
use athera.MemoryMap.{page_start, align_up, frames_size}

pub page_start-mod : (a : ℕ) → a < 2 ^ 64 → page_start a + a % 4096 ≡ a
unfolding page_start
page_start-mod a h =
    omega (arith, bit_and-bit_not 64 a (2 ^ 12 - 1) h (omega arith), bit_and_mask 12 a)

pub page_start_aligned : (a : ℕ) → a < 2 ^ 64 → a % 4096 ≡ 0 → page_start a ≡ a
page_start_aligned a h e = omega (arith, page_start-mod a h)

pub page_start_twice : (a : ℕ) → a < 2 ^ 64 → page_start (page_start a) ≡ page_start a
page_start_twice a h =
    let e = page_start-mod a h in page_start_aligned (page_start a) (omega arith) (omega arith)

align_up-order_size :
    (order : ℕ) → order < buddy_max_order → align_up (order_size order) ≡ order_size order
unfolding align_up order_size
align_up-order_size order h =
    let small = pow-lt order 11 h in
    let e = page_start-mod (2 ^ order * 2 ^ 12 + page_size - 1) (omega arith) in omega arith

pub frames_size-Blocks : (fs : List Frame) → Blocks fs → frames_size fs ≡ total fs
unfolding frames_size total
frames_size-Blocks [] no_block = refl
frames_size-Blocks (f ∷ fs) (block _ _ order h e bs) =
    let same : align_up f.size ≡ f.size = rw e (align_up-order_size order h) in
    omega (arith, frames_size-Blocks fs bs)
