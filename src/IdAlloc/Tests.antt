-- ===== src/IdAlloc/Tests.antt =====
-- The theorems about the ID allocator at a small allocator of 8-bit IDs with majors of four.
use athera.Prelude.{◌≡◌, refl, subst, [], ◌∷◌, some, ◌==◌, arith, inl, inr, Bool-cases}
use athera.Prelude.Count.{count}
use athera.Prelude.BTreeMap.{empty, entry, get, insert, last_below}
use athera.IdAlloc.Id.{next}
use athera.IdAlloc.Ranges.{available, split}
use athera.IdAlloc.Ranges.Spec.{is_free}
use athera.IdAlloc.Ranges.Cut.{cut, split-eq-cut}
use athera.IdAlloc.Flat
use athera.IdAlloc.Flat.{FlatAlloc, returns, panic}
use athera.IdAlloc.Flat.Valid
use athera.IdAlloc.Major.{
  IdAlloc, MajorSlot, alloc, alloc_at, dealloc, alloc_major, alloc_major_at, alloc_minor,
  dealloc_major, from_range,
}
use athera.IdAlloc.Major.Valid.{no_major, IsSlot, IsValid}
use athera.IdAlloc.Major.Ops.{AllocAt, alloc_at-AllocAt, Dealloc, dealloc-Dealloc}
use athera.IdAlloc.Major.Least.{Alloc, alloc-Alloc, AllocMinor, alloc_minor-AllocMinor}
use athera.IdAlloc.Major.Majors.{
  AllocMajor, alloc_major-AllocMajor, AllocMajorAt, alloc_major_at-AllocMajorAt,
}
use athera.IdAlloc.Major.Dissolve.{DeallocMajor, dealloc_major-DeallocMajor}
use athera.IdAlloc.Major.Start.{FromRange, from_range-FromRange}
use athera.IdAlloc.Major.Run.{
  call_alloc, call_dealloc, call_dealloc_major, call_init, run, Runs, run-Runs,
}

-- The major `[0, 4)` has given out 0; outside it 4 is given out and `[5, 10)` is free.
abbrev slot : MajorSlot
slot = record { inner = record { start = 0; end = 4; inuse = 1; ranges = entry 1 4 empty } }

abbrev sample : IdAlloc
sample = record {
  flat = record { start = 0; end = 10; inuse = 1; ranges = entry 5 10 empty };
  majors = entry 0 slot empty;
}

slot-IsValid : Valid.IsValid 8 no_major slot.inner
unfolding count is_free
slot-IsValid = record {
  fits = omega arith;
  formed = omega arith;
  counted = refl;
  apart = λ i r. ground arith;
}

sample-IsValid : IsValid 8 2 sample
unfolding count is_free get
sample-IsValid = record {
  flat = record {
    fits = omega arith;
    formed = omega arith;
    counted = refl;
    apart = λ i r. ground arith;
  };
  ordered = omega arith;
  slots = λ b s e. elim (Bool-cases (0 == b)) [
    | inl h ↦
        let at : 0 ≡ b = ground arith in
        let is : slot ≡ s = ground arith in
        subst (λ x. IsSlot 8 2 0 10 x s) at
          (subst (λ x. IsSlot 8 2 0 10 0 x) is
            (record {
              aligned = refl;
              above = omega arith;
              below = omega arith;
              first = refl;
              last = refl;
              inner = slot-IsValid;
            }))
    | inr h ↦ absurd (ground arith)
  ];
}

-- The second minor of the major, and the state after it.
minor_runs : alloc_minor 8 sample 0 ≡ (
  record sample {
    majors =
        entry 0
          (record { inner = record { start = 0; end = 4; inuse = 2; ranges = entry 2 4 empty } })
          empty;
  },
  some 1,
)
unfolding alloc_minor Flat.alloc next available insert get
minor_runs = refl

alloc_at-AllocAt_example : AllocAt 8 2 sample 2 (alloc_at 8 2 sample 2)
alloc_at-AllocAt_example = alloc_at-AllocAt 8 2 (omega arith) (omega arith) sample sample-IsValid 2

dealloc-Dealloc_example : Dealloc 8 2 sample 4 (dealloc 8 2 sample 4)
dealloc-Dealloc_example = dealloc-Dealloc 8 2 (omega arith) (omega arith) sample sample-IsValid 4

alloc-Alloc_example : Alloc 8 2 sample (alloc 8 sample)
alloc-Alloc_example = alloc-Alloc 8 2 sample sample-IsValid

alloc_minor-AllocMinor_example : AllocMinor 8 2 sample 0 (alloc_minor 8 sample 0)
alloc_minor-AllocMinor_example = alloc_minor-AllocMinor 8 2 sample sample-IsValid 0

alloc_major-AllocMajor_example : AllocMajor 8 2 sample (alloc_major 8 2 sample)
alloc_major-AllocMajor_example =
    alloc_major-AllocMajor 8 2 (omega arith) (omega arith) sample sample-IsValid

alloc_major_at-AllocMajorAt_example : AllocMajorAt 8 2 sample 4 (alloc_major_at 8 2 sample 4)
alloc_major_at-AllocMajorAt_example =
    alloc_major_at-AllocMajorAt 8 2 (omega arith) (omega arith) sample sample-IsValid 4

dealloc_major-DeallocMajor_example : DeallocMajor 8 2 sample 0 (dealloc_major 8 2 sample 0)
dealloc_major-DeallocMajor_example =
    dealloc_major-DeallocMajor 8 2 (omega arith) (omega arith) sample sample-IsValid 0

from_range-FromRange_example : FromRange 8 2 4 20 (from_range 8 2 4 20)
from_range-FromRange_example = from_range-FromRange 8 2 4 20 (omega arith) (omega arith)

run-Runs_example :
    Runs 8 2
      (run 8 2 (call_alloc ∷ call_dealloc 0 ∷ call_dealloc_major 0 ∷ call_init 4 20 ∷ []) sample)
run-Runs_example =
    run-Runs 8 2 (omega arith) (omega arith)
      (call_alloc ∷ call_dealloc 0 ∷ call_dealloc_major 0 ∷ call_init 4 20 ∷ []) sample
      (tt, (tt, (tt, (omega arith, tt)))) sample-IsValid

split-eq-cut_example :
    split 6 8 5 9 (entry 1 4 (entry 5 9 empty)) ≡ cut 6 8 (entry 1 4 (entry 5 9 empty))
split-eq-cut_example =
    split-eq-cut 0 10 6 8 5 9 (entry 1 4 (entry 5 9 empty)) (omega arith) (omega arith)
      (unfold last_below in refl) (omega arith)
