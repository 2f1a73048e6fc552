-- ===== src/IdAlloc/Flat.antt =====
-- `FlatAlloc` of crates/athera-id-alloc/src/lib.rs, its methods in the order of the source. The
-- width `w` is `T::BITS`. A method that panics where an `expect` fails or a counter underflows
-- returns an `Outcome`.
pub mod Valid
pub mod Ops
pub mod Aligned
pub mod Blocks
use Prim.Native.Nat.{bit_and}
use athera.Prelude.{
  ℕ, zero, suc, ◌+◌, ◌-◌, ◌^◌, Option, none, some, Bool, true, false, not, ◌&&◌, ◌||◌, ltb, leb,
  ◌==◌, if◌then◌else◌,
}
use athera.Prelude.Bits.{bit_not}
use athera.Prelude.Result.{Result, ok, err}
pub use athera.Prelude.Result.{Outcome, panic, returns}
use athera.Prelude.BTreeMap.{BTreeMap, empty, entry, insert, remove, last_below}
use athera.IdAlloc.Id.{
  IdAllocError, out_of_range, already_allocated, already_free, empty_range, range_busy, next,
  distance_to, from_bits, low_mask, block_size, wrapping_add,
}
use athera.IdAlloc.Ranges.{Ranges, available, scan, give_back, insert_free_range, split}

pub record FlatAlloc : Type 0 where
  pub start : ℕ
  pub end : ℕ
  pub inuse : ℕ
  pub ranges : Ranges

abbrev pub Status : Type 0
Status = Result (Unit {0}) IdAllocError

unfoldable pub new : ℕ → ℕ → FlatAlloc
new start end = record {
  start = start;
  end = end;
  inuse = 0;
  ranges = if ltb start end then insert start end empty else empty;
}

unfoldable pub contains : FlatAlloc → ℕ → Bool
contains f id = leb f.start id && ltb id f.end

unfoldable pub size : FlatAlloc → ℕ
size f = distance_to f.start f.end

unfoldable pub is_allocated : FlatAlloc → ℕ → Bool
unfolding contains
is_allocated f id = if not (contains f id) then false else not (scan id f.ranges)

-- The loop of `find_aligned_block` over the intervals in order.
unfoldable pub find_aligned : ℕ → ℕ → ℕ → Ranges → Option ℕ
find_aligned w mask block empty = none
find_aligned w mask block (entry s e m) =
    let aligned = bit_and (wrapping_add s mask) (bit_not 128 mask) in
    if leb (aligned + block) e then some (from_bits w aligned) else find_aligned w mask block m

unfoldable pub find_aligned_block : ℕ → FlatAlloc → ℕ → Option ℕ
unfolding find_aligned
find_aligned_block w f n =
    if block_size n == 0 then none else find_aligned w (low_mask n) (block_size n) f.ranges

-- `pop_first`, and the rest of the interval back in its place.
alloc_first : ℕ → FlatAlloc → Ranges → FlatAlloc × Option ℕ
unfolding next
alloc_first w f empty = (f, none)
alloc_first w f (entry id end m) = (
  record f {
    inuse = f.inuse + 1;
    ranges = elim (next w id) [
      | none ↦ m
      | some after ↦ if ltb after end then insert after end m else m
    ];
  },
  some id,
)

unfoldable pub alloc : ℕ → FlatAlloc → FlatAlloc × Option ℕ
unfolding alloc_first
alloc w f = if available f.ranges == 0 then (f, none) else alloc_first w f f.ranges

-- The interval `[s, e)` of `alloc_at` without `id`.
unfoldable pub take_out : ℕ → ℕ → ℕ → ℕ → Ranges → Ranges
unfolding next
take_out w id s e m =
    let m₁ = remove s m in
    let m₂ = if ltb s id then insert s id m₁ else m₁ in
    elim (next w id) [ none ↦ m₂ | some after ↦ if ltb after e then insert after e m₂ else m₂ ]

unfoldable pub alloc_at : ℕ → FlatAlloc → ℕ → Outcome (FlatAlloc × Status)
unfolding contains is_allocated take_out
alloc_at w f id =
    if not (contains f id)
    then returns (f, err out_of_range)
    else if is_allocated f id
    then returns (f, err already_allocated)
    else elim (last_below (suc id) f.ranges) [
      | none ↦ panic
      | some (s, e) ↦
          returns (record f { ranges = take_out w id s e f.ranges; inuse = f.inuse + 1 }, ok tt)
    ]

unfoldable pub dealloc : ℕ → FlatAlloc → ℕ → Outcome (FlatAlloc × Status)
unfolding contains is_allocated
dealloc w f id =
    if not (contains f id)
    then returns (f, err out_of_range)
    else if not (is_allocated f id)
    then returns (f, err already_free)
    else if f.inuse == 0
    then panic
    else returns (record f { ranges = insert_free_range w f.ranges id; inuse = f.inuse - 1 }, ok tt)

unfoldable pub carve : FlatAlloc → ℕ → ℕ → FlatAlloc × Status
carve f a b =
    if leb b a
    then (f, err empty_range)
    else if ltb a f.start || ltb f.end b
    then (f, err out_of_range)
    else elim (last_below (suc a) f.ranges) [
      | none ↦ (f, err range_busy)
      | some (s, e) ↦
          if ltb e b
          then (f, err range_busy)
          else (record f { ranges = split a b s e f.ranges }, ok tt)
    ]

unfoldable pub return_range : FlatAlloc → ℕ → ℕ → FlatAlloc
return_range f a b = if leb b a then f else record f { ranges = give_back a b f.ranges }

unfoldable pub reset : FlatAlloc → ℕ → ℕ → FlatAlloc
reset f start end = record {
  start = start;
  end = end;
  inuse = 0;
  ranges = if ltb start end then insert start end empty else empty;
}
