-- ===== src/Frames/Segments.antt =====
-- How many bytes `alloc_frames` takes, and that its loop ends.
use athera.Prelude.{
  ℕ, zero, suc, ◌+◌, ◌-◌, ◌≤◌, ◌<◌, ◌≡◌, sym, ap, subst, some, List, [], ◌∷◌, ◌++◌, arith, inl, inr,
  Option-cases,
}
use athera.Prelude.Bits.{pow-pos}
use athera.Buddy.{BuddyAllocator, alloc, order_size, buddy_max_order}
use athera.Frames.{Frame, size_to_order, alloc_frame, alloc_frames_loop, alloc_frames}

-- The size of the frame that a request gets.
unfoldable pub frame_size : ℕ → ℕ
frame_size size = order_size (size_to_order size)

unfoldable pub total : List Frame → ℕ
total [] = 0
total (f ∷ fs) = f.size + total fs

total-append : (fs gs : List Frame) → total (fs ++ gs) ≡ total fs + total gs
unfolding total
total-append [] gs = omega arith
total-append (f ∷ fs) gs = omega (arith, total-append fs gs)

order_size-pos : (i : ℕ) → 4096 ≤ order_size i
unfolding order_size
order_size-pos i = omega (arith, pow-pos i)

-- The bytes that a request gets in all: a frame for what remains, until nothing does.
unfoldable pub rounded_loop : ℕ → ℕ → ℕ
rounded_loop zero remaining = 0
rounded_loop (suc fuel) zero = 0
rounded_loop (suc fuel) (suc n) =
    frame_size (suc n) + rounded_loop fuel (suc n - frame_size (suc n))

unfoldable pub rounded : ℕ → ℕ
rounded size = rounded_loop size size

frame_size-pos : (n : ℕ) → 4096 ≤ frame_size n
unfolding frame_size
frame_size-pos n = order_size-pos (size_to_order n)

rounded_loop-le : (fuel n : ℕ) → n ≤ fuel → n ≤ rounded_loop fuel n
unfolding rounded_loop
rounded_loop-le zero n h = omega arith
rounded_loop-le (suc fuel) zero h = omega arith
rounded_loop-le (suc fuel) (suc n) h =
    let pos = frame_size-pos (suc n) in
    let rest = rounded_loop-le fuel (suc n - frame_size (suc n)) (omega arith) in omega arith

-- Never less than the request.
rounded-le : (n : ℕ) → n ≤ rounded n
unfolding rounded
rounded-le n = rounded_loop-le n n (omega arith)

alloc_frame-size :
    (b : BuddyAllocator) (size : ℕ) (f : Frame)
    → (alloc_frame b size).1 ≡ some f
    → f.size ≡ frame_size size
unfolding alloc_frame frame_size
alloc_frame-size b size f e = elim (Option-cases ((alloc b (size_to_order size)).1)) [
  | inl q ↦ absurd (ground (arith, e, q))
  | inr (start, q) ↦
      let same : record { start = start; size = frame_size size } ≡ f = ground (arith, e, q) in
      ap (λ g. g.size) (sym same)
]

total_last : (acc : List Frame) (f : Frame) → total (acc ++ (f ∷ [])) ≡ total acc + f.size
unfolding total
total_last acc f = omega (arith, total-append acc (f ∷ []))

loop-total :
    (fuel : ℕ) (b : BuddyAllocator) (n : ℕ) (acc fs : List Frame)
    → n ≤ fuel
    → (alloc_frames_loop fuel b n acc).1 ≡ some fs
    → total fs ≡ total acc + rounded_loop fuel n
unfolding alloc_frames_loop rounded_loop
loop-total zero b n acc fs h e = let same : acc ≡ fs = ground (arith, e) in rw⁻¹ same (omega arith)
loop-total (suc fuel) b zero acc fs h e =
    let same : acc ≡ fs = ground (arith, e) in rw⁻¹ same (omega arith)
loop-total (suc fuel) b (suc n) acc fs h e = elim (Option-cases ((alloc_frame b (suc n)).1)) [
  | inl q ↦ absurd (ground (arith, e, q))
  | inr (f, q) ↦
      let size = alloc_frame-size b (suc n) f q in
      let pos = frame_size-pos (suc n) in
      let left : suc n - f.size ≤ fuel = omega arith in
      let one : total (acc ++ (f ∷ [])) ≡ total acc + f.size = total_last acc f in
      let next : (alloc_frames_loop fuel ((alloc_frame b (suc n)).0) (suc n - f.size)
            (acc ++ (f ∷ []))).1
          ≡ some fs =
        ground (arith, e, q) in
      let rest =
        loop-total fuel ((alloc_frame b (suc n)).0) (suc n - f.size) (acc ++ (f ∷ [])) fs left
          next in
      let same : rounded_loop fuel (suc n - f.size)
          ≡ rounded_loop fuel (suc n - frame_size (suc n)) =
        ap (λ x. rounded_loop fuel (suc n - x)) size in
      omega arith
]

-- When `alloc_frames` answers, its frames are `rounded size` bytes, which is never less than
-- `size`: the loop has not run out of fuel.
pub alloc_frames-total :
    (b : BuddyAllocator) (size : ℕ) (fs : List Frame)
    → (alloc_frames b size).1 ≡ some fs
    → (total fs ≡ rounded size) × (size ≤ total fs)
unfolding alloc_frames rounded total
alloc_frames-total b size fs e =
    let sum = loop-total size b size [] fs (omega arith) e in
    let whole : total fs ≡ rounded size = omega arith in (whole, omega (arith, rounded-le size))

-- Frames of one block each, in whole pages and below the limit of the allocator.
pub data Blocks : List Frame → Type 0 where
  no_block : Blocks []
  block :
      (f : Frame) (fs : List Frame) (order : ℕ)
      → order < buddy_max_order
      → f.size ≡ order_size order
      → Blocks fs
      → Blocks (f ∷ fs)

size_to_order-lt : (size : ℕ) → size_to_order size < buddy_max_order
unfolding size_to_order
size_to_order-lt size = ground arith

block_last :
    (acc : List Frame) (f : Frame) (order : ℕ)
    → order < buddy_max_order
    → f.size ≡ order_size order
    → Blocks acc
    → Blocks (acc ++ (f ∷ []))
block_last [] f order h e no_block = block f [] order h e no_block
block_last (g ∷ acc) f order h e (block _ _ o l q bs) =
    block g (acc ++ (f ∷ [])) o l q (block_last acc f order h e bs)

loop-Blocks :
    (fuel : ℕ) (b : BuddyAllocator) (n : ℕ) (acc fs : List Frame)
    → Blocks acc
    → (alloc_frames_loop fuel b n acc).1 ≡ some fs
    → Blocks fs
unfolding alloc_frames_loop frame_size
loop-Blocks zero b n acc fs w e = let same : acc ≡ fs = ground (arith, e) in subst Blocks same w
loop-Blocks (suc fuel) b zero acc fs w e =
    let same : acc ≡ fs = ground (arith, e) in subst Blocks same w
loop-Blocks (suc fuel) b (suc n) acc fs w e = elim (Option-cases ((alloc_frame b (suc n)).1)) [
  | inl q ↦ absurd (ground (arith, e, q))
  | inr (f, q) ↦
      let next : (alloc_frames_loop fuel ((alloc_frame b (suc n)).0) (suc n - f.size)
            (acc ++ (f ∷ []))).1
          ≡ some fs =
        ground (arith, e, q) in
      loop-Blocks fuel ((alloc_frame b (suc n)).0) (suc n - f.size) (acc ++ (f ∷ [])) fs
        (block_last acc f (size_to_order (suc n)) (size_to_order-lt (suc n))
          (alloc_frame-size b (suc n) f q) w)
        next
]

pub alloc_frames-Blocks :
    (b : BuddyAllocator) (size : ℕ) (fs : List Frame)
    → (alloc_frames b size).1 ≡ some fs
    → Blocks fs
unfolding alloc_frames
alloc_frames-Blocks b size fs e = loop-Blocks size b size [] fs no_block e
