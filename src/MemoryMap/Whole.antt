-- ===== src/MemoryMap/Whole.antt =====
-- Which addresses the list of mappings covers after `mmap_fill`, `rebuild` and `move_to`.
use athera.Prelude.{
  ℕ, ◌+◌, ◌-◌, ◌%◌, ◌^◌, ◌≤◌, ◌<◌, ◌≡◌, inl, inr, some, Bool, true, false, not, ◌&&◌, List, [], ◌∷◌,
  ◌++◌, ltb, leb, if◌then◌else◌, arith, Bool-cases, Option-cases,
}
use athera.Prelude.Result.{ok, err, Result-cases}
use athera.Frames.{Frame, alloc_frames}
use athera.Frames.Segments.{total, Blocks, alloc_frames-total, alloc_frames-Blocks}
use athera.PageTable.{PageTableEntryFlags}
use athera.MemoryMap.{
  ErrorCode, enomem, efault, UserMapping, range_start, range_end, overlaps, range_is_free,
  page_start, user_stack_lower_bound, ranges_below, insert_range, find_below, find_free_region,
  flags_of_first, is_canonical_user_range,
}
use athera.MemoryMap.Pages.{Machine, After, finish, map_frame, rebuild, unmap_range, drop_all}
use athera.MemoryMap.Calls.{checked_add, mmap_fill, rebuild_at, move_to}
use athera.MemoryMap.Align.{page_start-mod, page_start_aligned, frames_size-Blocks}
use athera.MemoryMap.Unmap.{MapsFrame, mapped, refused, map_frame-MapsFrame}
use athera.MemoryMap.Keeps.{IsWords, range_is_free-append, overlaps-true}
use athera.MemoryMap.Mapped.{Fills, fills, fills_not, mmap_fill-Fills}

-- Every address of the range is mapped.
abbrev pub IsCovered : List UserMapping → ℕ → ℕ → Type 0
IsCovered ms a length = (va : ℕ) → a ≤ va → va < a + length → range_is_free ms va (va + 1) ≡ false

-- The list with a mapping added at a page covers as many bytes as its frames have.
added-IsCovered :
    (ms : List UserMapping) (a length : ℕ) (frames : List Frame) (flags : PageTableEntryFlags)
    → a < 2 ^ 64
    → a % 4096 ≡ 0
    → length ≤ total frames
    → Blocks frames
    → IsCovered (ms ++ (record { va = a; frames = frames; flags = flags } ∷ [])) a length
unfolding range_is_free range_start range_end
added-IsCovered ms a length frames flags h e le bs va low high =
    let m : UserMapping = record { va = a; frames = frames; flags = flags } in
    let start : range_start m ≡ a = page_start_aligned a h e in
    let size = frames_size-Blocks frames bs in
    let meets : overlaps m va (va + 1) ≡ true = overlaps-true m va (omega arith) (omega arith) in
    rw (range_is_free-append ms (m ∷ []) va (va + 1)) (ground (arith, meets))

-- A call that answers only `target`, and then with `length` bytes from there mapped.
pub record Places (target length : ℕ) (r : After ℕ) : Type 0 where
  pub at : (a : ℕ) → r.answer ≡ ok a → (a ≡ target) × IsCovered r.mappings target length

failed-Places :
    (target length : ℕ) (s : Machine) (ms : List UserMapping) (e : ErrorCode)
    → Places target length (finish s ms (err e))
failed-Places target length s ms e = record { at = λ a p. absurd (ground (arith, p)) }

pub mmap_fill-Places :
    (s : Machine) (ms : List UserMapping) (tid target length : ℕ) (flags : PageTableEntryFlags)
    → target < 2 ^ 64
    → target % 4096 ≡ 0
    → Places target length (mmap_fill s ms tid target length flags)
mmap_fill-Places s ms tid target length flags h e =
    answered (mmap_fill-Fills s ms tid target length flags)
  where
    answered : {r : After ℕ} → Fills ms target length flags r → Places target length r
    answered (fills s' frames t le bs) = record {
      at = λ a p. (ground (arith, p), added-IsCovered ms target length frames flags h e le bs);
    }
    answered (fills_not s' c) = failed-Places target length s' ms c

-- `rebuild` maps its destination.
data Rebuilds (dest new_size : ℕ) (flags : PageTableEntryFlags) : After (Unit {0}) → Type 0 where
  rebuilds :
      (s : Machine) (ms : List UserMapping) (frames : List Frame)
      → new_size ≤ total frames
      → Blocks frames
      → Rebuilds dest new_size flags
          (finish s (ms ++ (record { va = dest; frames = frames; flags = flags } ∷ [])) (ok tt))
  rebuilds_not :
      (s : Machine) (ms : List UserMapping) (e : ErrorCode)
      → Rebuilds dest new_size flags (finish s ms (err e))

map_frame-Rebuilds :
    (s : Machine) (ms : List UserMapping) (tid dest new_size : ℕ) (frames : List Frame)
    (flags : PageTableEntryFlags)
    → new_size ≤ total frames
    → Blocks frames
    → Rebuilds dest new_size flags (map_frame s ms tid dest frames flags)
map_frame-Rebuilds s ms tid dest new_size frames flags le bs =
    answered (map_frame-MapsFrame s ms tid dest frames flags)
  where
    answered :
        {r : After (Unit {0})} → MapsFrame ms dest frames flags r → Rebuilds dest new_size flags r
    answered (mapped s') = rebuilds s' ms frames le bs
    answered (refused s' e) = rebuilds_not s' ms e

rebuild-Rebuilds :
    (s : Machine) (ms : List UserMapping) (tid old_start old_end dest new_size : ℕ)
    (flags : PageTableEntryFlags)
    → Rebuilds dest new_size flags (rebuild s ms tid old_start old_end dest new_size flags)
unfolding rebuild
rebuild-Rebuilds s ms tid old_start old_end dest new_size flags =
    elim (Option-cases ((alloc_frames s.allocator new_size).1)) [
      | inl q ↦ rw (q, rebuild) (rebuilds_not _ ms enomem)
      | inr (frames, q) ↦
          let t = alloc_frames-total s.allocator new_size frames q in
          let bs = alloc_frames-Blocks s.allocator new_size frames q in
          rw (q, rebuild) (copied frames (t.1) bs _ _)
    ]
  where
    torn :
        (frames : List Frame)
        → new_size ≤ total frames
        → Blocks frames
        → (u : After (Unit {0}))
        → Rebuilds dest new_size flags (elim u.answer [
          | err e ↦ finish (drop_all u.machine frames) u.mappings (err e)
          | ok a ↦ map_frame u.machine u.mappings tid dest frames flags
        ])
    torn frames le bs u = elim (Result-cases u.answer) [
      | inl (a, p) ↦
          rw p (map_frame-Rebuilds u.machine u.mappings tid dest new_size frames flags le bs)
      | inr (e, p) ↦ rw p (rebuilds_not _ _ e)
    ]

    copied :
        (frames : List Frame)
        → new_size ≤ total frames
        → Blocks frames
        → (s'' : Machine) (done : Bool)
        → Rebuilds dest new_size flags (elim done [
          | false ↦ finish (drop_all s'' frames) ms (err efault)
          | true ↦
              let u = unmap_range s'' ms tid old_start old_end in
              elim u.answer [
                | err e ↦ finish (drop_all u.machine frames) u.mappings (err e)
                | ok a ↦ map_frame u.machine u.mappings tid dest frames flags
              ]
        ])
    copied frames le bs s'' false = rebuilds_not _ ms efault
    copied frames le bs s'' true = torn frames le bs (unmap_range s'' ms tid old_start old_end)

pub rebuild_at-Places :
    (s : Machine) (ms : List UserMapping) (tid old_start old_end dest new_size : ℕ)
    → dest < 2 ^ 64
    → dest % 4096 ≡ 0
    → Places dest new_size (rebuild_at s ms tid old_start old_end dest new_size)
unfolding rebuild_at
rebuild_at-Places s ms tid old_start old_end dest new_size h e =
    elim (Option-cases (flags_of_first ms old_start)) [
      | inl f ↦ rw (f, rebuild_at) (failed-Places dest new_size s ms efault)
      | inr (flags, f) ↦
          rw (f, rebuild_at)
            (answered flags _ (rebuild-Rebuilds s ms tid old_start old_end dest new_size flags))
    ]
  where
    answered :
        (flags : PageTableEntryFlags) (r : After (Unit {0}))
        → Rebuilds dest new_size flags r
        → Places dest new_size (elim r.answer [
          | err e ↦ finish r.machine r.mappings (err e)
          | ok u ↦ finish r.machine r.mappings (ok dest)
        ])
    answered flags _ (rebuilds s' ms' frames le bs) = record {
      at = λ a p. (ground (arith, p), added-IsCovered ms' dest new_size frames flags h e le bs);
    }
    answered flags _ (rebuilds_not s' ms' c) = failed-Places dest new_size s' ms' c

split-Places :
    {target length : ℕ} (b : Bool) {x y : After ℕ}
    → Places target length x
    → Places target length y
    → Places target length (if b then x else y)
split-Places true p q = p
split-Places false p q = q

pub move_to-Places :
    (s : Machine) (ms : List UserMapping) (tid old_start old_end dest new_size : ℕ) (replace : Bool)
    → dest < 2 ^ 64
    → dest % 4096 ≡ 0
    → Places dest new_size (move_to s ms tid old_start old_end dest new_size replace)
unfolding move_to
move_to-Places s ms tid old_start old_end dest new_size replace h e =
    elim (Option-cases (checked_add dest new_size)) [
      | inl c ↦ rw (c, move_to) (failed-Places dest new_size s ms enomem)
      | inr (end, c) ↦
          rw (c, move_to)
            (split-Places (not (is_canonical_user_range dest end)) no (
              split-Places (ltb dest old_end && ltb old_start end) no (
                split-Places replace (torn (unmap_range s ms tid dest end)) (
                  split-Places (not (range_is_free ms dest end)) no
                    (rebuild_at-Places s ms tid old_start old_end dest new_size h e)))))
    ]
  where
    no : Places dest new_size (finish s ms (err enomem))
    no = failed-Places dest new_size s ms enomem

    torn :
        (u : After (Unit {0}))
        → Places dest new_size (elim u.answer [
          | err e ↦ finish u.machine u.mappings (err e)
          | ok a ↦ rebuild_at u.machine u.mappings tid old_start old_end dest new_size
        ])
    torn u = elim (Result-cases u.answer) [
      | inl (a, p) ↦
          rw p (rebuild_at-Places u.machine u.mappings tid old_start old_end dest new_size h e)
      | inr (c, p) ↦ rw p (failed-Places dest new_size u.machine u.mappings c)
    ]

-- Ranges that start on pages.
abbrev StartOnPages : List (ℕ × ℕ) → Type 0
StartOnPages [] = Unit
StartOnPages (r ∷ rs) = (r.0 < 2 ^ 64) × (r.0 % 4096 ≡ 0) × StartOnPages rs

insert_range-StartOnPages :
    (r : ℕ × ℕ) (rs : List (ℕ × ℕ))
    → r.0 < 2 ^ 64
    → r.0 % 4096 ≡ 0
    → StartOnPages rs
    → StartOnPages (insert_range r rs)
unfolding insert_range
insert_range-StartOnPages r [] h e p = (h, e, tt)
insert_range-StartOnPages r (q ∷ qs) h e p = elim (Bool-cases (ltb (r.0) (q.0))) [
  | inl c ↦ rw c (p.0, p.1, insert_range-StartOnPages r qs h e (p.2))
  | inr c ↦ rw c (h, e, p)
]

below-StartOnPages : (ms : List UserMapping) → IsWords ms → StartOnPages (ranges_below ms)
unfolding ranges_below range_start
below-StartOnPages [] w = tt
below-StartOnPages (m ∷ ms) w = elim (Bool-cases (leb (range_end m) user_stack_lower_bound)) [
  | inl c ↦
      let p = page_start-mod m.va (w.0) in
      rw c (
        insert_range-StartOnPages (page_start m.va, range_end m) (ranges_below ms) (omega arith)
          (omega arith) (below-StartOnPages ms (w.1)))
  | inr c ↦ rw c (below-StartOnPages ms (w.1))
]

find_below_aligned :
    (rs : List (ℕ × ℕ)) (top length a : ℕ)
    → StartOnPages rs
    → top < 2 ^ 64
    → top % 4096 ≡ 0
    → length % 4096 ≡ 0
    → find_below rs top length ≡ some a
    → (a < 2 ^ 64) × (a % 4096 ≡ 0)
unfolding find_below
find_below_aligned [] top length a p h e l q =
    let at : (length ≤ top) × (a ≡ top - length) = ground (arith, q) in (omega arith, omega arith)
find_below_aligned (r ∷ rs) top length a p h e l q =
    elim (Bool-cases (ltb (r.1) top && leb length (top - r.1))) [
      | inl c ↦
          let at : (length ≤ top) × (a ≡ top - length) = ground (arith, q, c) in
          (omega arith, omega arith)
      | inr c ↦ find_below_aligned rs (r.0) length a (p.2) (p.0) (p.1) l (ground (arith, q, c))
    ]

-- The search answers a page when the length is one of whole pages.
pub find_free_region_aligned :
    (ms : List UserMapping) (length a : ℕ)
    → IsWords ms
    → length % 4096 ≡ 0
    → find_free_region ms length ≡ some a
    → (a < 2 ^ 64) × (a % 4096 ≡ 0)
unfolding find_free_region
find_free_region_aligned ms length a w e q =
    find_below_aligned (ranges_below ms) user_stack_lower_bound length a (below-StartOnPages ms w)
      (omega arith) (omega arith) e q
