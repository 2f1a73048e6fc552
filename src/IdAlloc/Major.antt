-- ===== src/IdAlloc/Major.antt =====
-- `IdAlloc` of crates/athera-id-alloc/src/lib.rs: the flat space and the majors that were taken out
-- of it. `w` is `T::BITS` and `n` the constant parameter `MINOR_BITS`.
pub mod Blocks
pub mod Valid
pub mod Ids
pub mod Ops
pub mod Least
pub mod Reserve
pub mod Dissolve
pub mod Majors
pub mod Start
pub mod Run
use Prim.Native.Nat.{bit_and}
use athera.Prelude.{
  ℕ, ◌+◌, Option, none, some, Bool, true, false, not, ◌||◌, leb, ltb, ◌==◌, if◌then◌else◌,
}
use athera.Prelude.Bits.{bit_not}
use athera.Prelude.Result.{Result, ok, err, ◌>>=◌, ◌>>◌}
use athera.Prelude.BTreeMap.{BTreeMap, empty, entry, get, insert, remove}
use athera.IdAlloc.Id.{
  IdAllocError, out_of_range, not_aligned, already_allocated, major_not_found, from_bits, low_mask,
  block_size, wrapping_add,
}
use athera.IdAlloc.Ranges.{available}
use athera.IdAlloc.Flat
use athera.IdAlloc.Flat.{FlatAlloc, Outcome, panic, returns, Status}

pub record MajorSlot : Type 0 where
  pub inner : FlatAlloc

pub record IdAlloc : Type 0 where
  pub flat : FlatAlloc
  pub majors : BTreeMap MajorSlot

unfoldable pub new : IdAlloc
unfolding Flat.new
new = record { flat = Flat.new 0 0; majors = empty }

unfoldable pub validate_range : ℕ → ℕ → ℕ → Status
validate_range w n start =
    if leb w n
    then err out_of_range
    else if not (bit_and start (low_mask n) == 0)
    then err not_aligned
    else ok tt

unfoldable pub from_range : ℕ → ℕ → ℕ → ℕ → Result IdAlloc IdAllocError
unfolding validate_range
from_range w n start end =
    validate_range w n start >> ok (record { flat = Flat.new start end; majors = empty })

unfoldable pub init : ℕ → ℕ → IdAlloc → ℕ → ℕ → IdAlloc × Status
unfolding validate_range
init w n a start end = elim (validate_range w n start) [
  | err e ↦ (a, err e)
  | ok _ ↦ (record { flat = Flat.reset a.flat start end; majors = empty }, ok tt)
]

unfoldable pub block_end : ℕ → ℕ → ℕ → ℕ
block_end w n base = from_bits w (wrapping_add base (block_size n))

unfoldable pub token_base : ℕ → ℕ → ℕ → ℕ
token_base w n id = from_bits w (bit_and id (bit_not 128 (low_mask n)))

unfoldable pub sum_used : BTreeMap MajorSlot → ℕ
sum_used empty = 0
sum_used (entry base s m) = s.inner.inuse + sum_used m

unfoldable pub used : IdAlloc → ℕ
unfolding sum_used
used a = a.flat.inuse + sum_used a.majors

unfoldable pub sum_available : BTreeMap MajorSlot → ℕ
sum_available empty = 0
sum_available (entry base s m) = available s.inner.ranges + sum_available m

unfoldable pub available_ids : IdAlloc → ℕ
unfolding sum_available
available_ids a = available a.flat.ranges + sum_available a.majors

unfoldable pub is_allocated : ℕ → ℕ → IdAlloc → ℕ → Bool
is_allocated w n a id =
    if not (Flat.contains a.flat id) then false else elim (get (token_base w n id) a.majors) [
      | some slot ↦ Flat.is_allocated slot.inner id
      | none ↦ Flat.is_allocated a.flat id
    ]

unfoldable pub reset : IdAlloc → IdAlloc
reset a = record { flat = Flat.reset a.flat a.flat.start a.flat.end; majors = empty }

unfoldable pub alloc : ℕ → IdAlloc → IdAlloc × Option ℕ
alloc w a = let (flat, r) = Flat.alloc w a.flat in (record a { flat = flat }, r)

-- A method of the flat space, and one of the slot of `base`, as methods of the whole.
unfoldable pub on_flat : IdAlloc → Outcome (FlatAlloc × Status) → Outcome (IdAlloc × Status)
on_flat a panic = panic
on_flat a (returns (f, r)) = returns (record a { flat = f }, r)

unfoldable pub on_slot : IdAlloc → ℕ → Outcome (FlatAlloc × Status) → Outcome (IdAlloc × Status)
on_slot a base panic = panic
on_slot a base (returns (f, r)) =
    returns (record a { majors = insert base (record { inner = f }) a.majors }, r)

unfoldable pub alloc_at : ℕ → ℕ → IdAlloc → ℕ → Outcome (IdAlloc × Status)
alloc_at w n a id =
    if not (Flat.contains a.flat id)
    then returns (a, err out_of_range)
    else let base = token_base w n id in
      elim (get base a.majors) [
        | some slot ↦ on_slot a base (Flat.alloc_at w slot.inner id)
        | none ↦ on_flat a (Flat.alloc_at w a.flat id)
      ]

unfoldable pub dealloc : ℕ → ℕ → IdAlloc → ℕ → Outcome (IdAlloc × Status)
dealloc w n a id =
    if not (Flat.contains a.flat id)
    then returns (a, err out_of_range)
    else let base = token_base w n id in
      elim (get base a.majors) [
        | some slot ↦ on_slot a base (Flat.dealloc w slot.inner id)
        | none ↦ on_flat a (Flat.dealloc w a.flat id)
      ]

-- After `carve` of `[base, end)`: the new slot, or the error.
unfoldable pub insert_slot : IdAlloc → ℕ → ℕ → FlatAlloc × Status → IdAlloc × Status
insert_slot a base end (flat, err e) = (record a { flat = flat }, err e)
insert_slot a base end (flat, ok _) = (
  record { flat = flat; majors = insert base (record { inner = Flat.new base end }) a.majors },
  ok tt,
)

-- The block `[base, end)` out of the flat space and into a new slot.
unfoldable pub reserve : IdAlloc → ℕ → ℕ → IdAlloc × Status
reserve a base end = insert_slot a base end (Flat.carve a.flat base end)

-- The `expect` on `carve`.
unfoldable pub expect : ℕ → IdAlloc × Status → Outcome (IdAlloc × Option ℕ)
expect base (a, ok _) = returns (a, some base)
expect base (a, err _) = panic

unfoldable pub alloc_major : ℕ → ℕ → IdAlloc → Outcome (IdAlloc × Option ℕ)
alloc_major w n a = elim (Flat.find_aligned_block w a.flat n) [
  | none ↦ returns (a, none)
  | some base ↦ expect base (reserve a base (block_end w n base))
]

-- The `?` on `carve`.
unfoldable pub pass : ℕ → IdAlloc × Status → IdAlloc × Result ℕ IdAllocError
pass base (a, ok _) = (a, ok base)
pass base (a, err e) = (a, err e)

unfoldable pub alloc_major_at : ℕ → ℕ → IdAlloc → ℕ → IdAlloc × Result ℕ IdAllocError
alloc_major_at w n a base =
    if not (bit_and base (low_mask n) == 0)
    then (a, err not_aligned)
    else if not (Flat.contains a.flat base)
    then (a, err out_of_range)
    else let end_bits = wrapping_add base (block_size n) in
      if end_bits == 0 || ltb a.flat.end end_bits
      then (a, err out_of_range)
      else elim (get base a.majors) [
        | some _ ↦ (a, err already_allocated)
        | none ↦ pass base (reserve a base (from_bits w end_bits))
      ]

unfoldable pub alloc_minor : ℕ → IdAlloc → ℕ → IdAlloc × Option ℕ
alloc_minor w a major = elim (get major a.majors) [
  | none ↦ (a, none)
  | some slot ↦
      let (inner, r) = Flat.alloc w slot.inner in
      (record a { majors = insert major (record { inner = inner }) a.majors }, r)
]

unfoldable pub dealloc_major : ℕ → ℕ → IdAlloc → ℕ → IdAlloc × Status
dealloc_major w n a base = elim (get base a.majors) [
  | none ↦ (a, err major_not_found)
  | some _ ↦ (
    record {
      flat = Flat.return_range a.flat base (block_end w n base);
      majors = remove base a.majors;
    },
    ok tt,
  )
]
