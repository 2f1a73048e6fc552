-- ===== src/IdAlloc/Major/Run.antt =====
-- Any sequence of calls on an allocator that `from_range` made.
use athera.Prelude.{ℕ, ◌<◌, ◌≤◌, List, [], ◌∷◌, Option}
use athera.Prelude.Result.{Result}
use athera.IdAlloc.Id.{IdAllocError, id_max}
use athera.IdAlloc.Flat.{Outcome, panic, returns, Status}
use athera.IdAlloc.Major.{
  IdAlloc, alloc, alloc_at, dealloc, alloc_major, alloc_major_at, alloc_minor, dealloc_major, reset,
  init,
}
use athera.IdAlloc.Major.Valid.{IsValid}
use athera.IdAlloc.Major.Ops
use athera.IdAlloc.Major.Ops.{AllocAt, alloc_at-AllocAt, Dealloc, dealloc-Dealloc}
use athera.IdAlloc.Major.Least
use athera.IdAlloc.Major.Least.{Alloc, alloc-Alloc, AllocMinor, alloc_minor-AllocMinor}
use athera.IdAlloc.Major.Majors
use athera.IdAlloc.Major.Majors.{
  AllocMajor, alloc_major-AllocMajor, AllocMajorAt, alloc_major_at-AllocMajorAt,
}
use athera.IdAlloc.Major.Dissolve
use athera.IdAlloc.Major.Dissolve.{DeallocMajor, dealloc_major-DeallocMajor}
use athera.IdAlloc.Major.Start.{reset-IsFresh, init-IsValid}

-- The calls of the public interface that change an allocator.
pub data Call : Type 0 where
  call_alloc : Call
  call_alloc_at : ℕ → Call
  call_dealloc : ℕ → Call
  call_alloc_major : Call
  call_alloc_major_at : ℕ → Call
  call_alloc_minor : ℕ → Call
  call_dealloc_major : ℕ → Call
  call_reset : Call
  call_init : ℕ → ℕ → Call

-- The end of a range is an ID of `w` bits.
abbrev pub TakesIds : ℕ → Call → Type 0
TakesIds w (call_init start end) = end ≤ id_max w
TakesIds w _ = Unit

abbrev pub AllTakeIds : ℕ → List Call → Type 0
AllTakeIds w [] = Unit
AllTakeIds w (c ∷ cs) = TakesIds w c × AllTakeIds w cs

-- The state after an outcome; what was answered is dropped.
abbrev state {ℓ} : {A : Type ℓ} → Outcome (IdAlloc × A) → Outcome IdAlloc
state panic = panic
state (returns (a, r)) = returns a

perform : ℕ → ℕ → Call → IdAlloc → Outcome IdAlloc
perform w n call_alloc a = returns (alloc w a).0
perform w n (call_alloc_at id) a = state (alloc_at w n a id)
perform w n (call_dealloc id) a = state (dealloc w n a id)
perform w n call_alloc_major a = state (alloc_major w n a)
perform w n (call_alloc_major_at base) a = returns (alloc_major_at w n a base).0
perform w n (call_alloc_minor major) a = returns (alloc_minor w a major).0
perform w n (call_dealloc_major base) a = returns (dealloc_major w n a base).0
perform w n call_reset a = returns (reset a)
perform w n (call_init start end) a = returns (init w n a start end).0

pub run : ℕ → ℕ → List Call → IdAlloc → Outcome IdAlloc
run w n [] a = returns a
run w n (c ∷ cs) a = elim (perform w n c a) [ panic ↦ panic | returns a' ↦ run w n cs a' ]

-- It returns, in a valid state.
pub data Runs (w n : ℕ) : Outcome IdAlloc → Type 0 where
  runs : (a : IdAlloc) → IsValid w n a → Runs w n (returns a)

module _ (w n : ℕ) (a : IdAlloc) (v : IsValid w n a) where
  keep_at : (id : ℕ) (r : Outcome (IdAlloc × Status)) → AllocAt w n a id r → Runs w n (state r)
  keep_at id _ (Ops.AllocAt.outside h) = runs a v
  keep_at id _ (Ops.AllocAt.busy h k) = runs a v
  keep_at id _ (Ops.AllocAt.done a' t) = runs a' t.valid

  keep-Dealloc : (id : ℕ) (r : Outcome (IdAlloc × Status)) → Dealloc w n a id r → Runs w n (state r)
  keep-Dealloc id _ (Ops.Dealloc.outside h) = runs a v
  keep-Dealloc id _ (Ops.Dealloc.idle h k) = runs a v
  keep-Dealloc id _ (Ops.Dealloc.done a' t) = runs a' t.valid

  keep-Alloc : (r : IdAlloc × Option ℕ) → Alloc w n a r → Runs w n (returns r.0)
  keep-Alloc _ (Least.Alloc.full h) = runs a v
  keep-Alloc _ (Least.Alloc.least id a' t o l) = runs a' t.valid

  keep_minor : (m : ℕ) (r : IdAlloc × Option ℕ) → AllocMinor w n a m r → Runs w n (returns r.0)
  keep_minor m _ (Least.AllocMinor.absent h) = runs a v
  keep_minor m _ (Least.AllocMinor.full s e h) = runs a v
  keep_minor m _ (Least.AllocMinor.least id a' t o l) = runs a' t.valid

  keep_major : (r : Outcome (IdAlloc × Option ℕ)) → AllocMajor w n a r → Runs w n (state r)
  keep_major _ (Majors.AllocMajor.full h) = runs a v
  keep_major _ (Majors.AllocMajor.done base a' t) = runs a' t.valid

  keep_major_at :
      (base : ℕ) (r : IdAlloc × Result ℕ IdAllocError)
      → AllocMajorAt w n a base r
      → Runs w n (returns r.0)
  keep_major_at base _ (Majors.AllocMajorAt.misaligned h) = runs a v
  keep_major_at base _ (Majors.AllocMajorAt.outside h) = runs a v
  keep_major_at base _ (Majors.AllocMajorAt.taken s h) = runs a v
  keep_major_at base _ (Majors.AllocMajorAt.busy h) = runs a v
  keep_major_at base _ (Majors.AllocMajorAt.done a' t) = runs a' t.valid

  keep_dissolve :
      (base : ℕ) (r : IdAlloc × Status) → DeallocMajor w n a base r → Runs w n (returns r.0)
  keep_dissolve base _ (Dissolve.DeallocMajor.absent h) = runs a v
  keep_dissolve base _ (Dissolve.DeallocMajor.done s a' t) = runs a' t.valid

module _ (w n : ℕ) (lt : n < w) (narrow : w < 127) where
  perform-Runs :
      (c : Call) (a : IdAlloc) → TakesIds w c → IsValid w n a → Runs w n (perform w n c a)
  unfolding perform
  perform-Runs call_alloc a h v = keep-Alloc w n a v (alloc w a) (alloc-Alloc w n a v)
  perform-Runs (call_alloc_at id) a h v =
      keep_at w n a v id _ (alloc_at-AllocAt w n lt narrow a v id)
  perform-Runs (call_dealloc id) a h v =
      keep-Dealloc w n a v id _ (dealloc-Dealloc w n lt narrow a v id)
  perform-Runs call_alloc_major a h v =
      keep_major w n a v _ (alloc_major-AllocMajor w n lt narrow a v)
  perform-Runs (call_alloc_major_at base) a h v =
      keep_major_at w n a v base _ (alloc_major_at-AllocMajorAt w n lt narrow a v base)
  perform-Runs (call_alloc_minor major) a h v =
      keep_minor w n a v major _ (alloc_minor-AllocMinor w n a v major)
  perform-Runs (call_dealloc_major base) a h v =
      keep_dissolve w n a v base _ (dealloc_major-DeallocMajor w n lt narrow a v base)
  perform-Runs call_reset a h v = runs _ (reset-IsFresh w n a v.flat.fits).valid
  perform-Runs (call_init start end) a h v = runs _ (init-IsValid w n a start end h v)

  -- With IDs of fewer than 127 bits and majors of fewer bits than an ID, no sequence of calls of
  -- the public methods that change an allocator, with ranges of IDs, panics on a valid allocator,
  -- and the state after it is valid.
  pub run-Runs :
      (cs : List Call) (a : IdAlloc) → AllTakeIds w cs → IsValid w n a → Runs w n (run w n cs a)
  unfolding run
  run-Runs [] a h v = runs a v
  run-Runs (c ∷ cs) a h v =
      next (perform w n c a) (perform-Runs c a (h.0) v) (λ a v. run-Runs cs a (h.1) v)
    where
      next :
          (r : Outcome IdAlloc)
          → Runs w n r
          → ((a : IdAlloc) → IsValid w n a → Runs w n (run w n cs a))
          → Runs w n (elim r [ panic ↦ panic | returns a' ↦ run w n cs a' ])
      next _ (runs a' v') ih = ih a' v'
