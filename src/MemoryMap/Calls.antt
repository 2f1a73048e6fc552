-- ===== src/MemoryMap/Calls.antt =====
-- The system calls `mmap`, `munmap` and `mremap` of src/mm/memory_map.rs on a table of tasks.
use Prim.Native.Nat.{bit_and}
use athera.Prelude.{
  ℕ, ◌+◌, ◌-◌, ◌^◌, ◌%◌, Option, none, some, Bool, true, false, not, ◌&&◌, ◌||◌, List, ltb, leb,
  ◌==◌, if◌then◌else◌,
}
use athera.Prelude.Bits.{bit_not}
use athera.Prelude.Result.{Result, ok, err}
use athera.Prelude.BTreeMap.{BTreeMap, get, insert}
use athera.Frames.{page_size, alloc_frames}
use athera.PageTable.{PageTableEntryFlags}
use athera.MemoryMap.{
  ErrorCode, esrch, enomem, efault, eexist, einval, enosys, UserMapping, prot_mask, align_up,
  range_is_free, range_fully_mapped, flags_of_first, find_free_region, is_canonical_user_range,
  prot_to_page_flags,
}
use athera.MemoryMap.Pages.{Machine, After, finish, map_frame, zero_frames, unmap_range, rebuild}

pub record System : Type 0 where
  pub machine : Machine
  pub tasks : BTreeMap (List UserMapping)

-- `checked_add` on a word of 64 bits.
unfoldable pub checked_add : ℕ → ℕ → Option ℕ
checked_add a b = if ltb (a + b) (2 ^ 64) then some (a + b) else none

unfoldable pub is_multiple_of : ℕ → ℕ → Bool
is_multiple_of a b = a % b == 0

-- A call on the mappings of a task that exists.
unfoldable pub with_task : System → ℕ → (List UserMapping → After ℕ) → System × Result ℕ ErrorCode
with_task s tid call = elim (get tid s.tasks) [
  | none ↦ (s, err esrch)
  | some ms ↦
      let r = call ms in
      (record { machine = r.machine; tasks = insert tid r.mappings s.tasks }, r.answer)
]

-- `MAP_FIXED_NOREPLACE`, and it or `MAP_FIXED`.
unfoldable pub is_noreplace : ℕ → Bool
is_noreplace flags = not (bit_and flags (2 ^ 20) == 0)

unfoldable pub is_fixed : ℕ → Bool
is_fixed flags = not (bit_and flags (2 ^ 4 + 2 ^ 20) == 0)

-- Where `mmap` puts `length` bytes.
unfoldable pub mmap_target : List UserMapping → ℕ → ℕ → Bool → Result ℕ ErrorCode
mmap_target ms addr length fixed =
    let hinted : Bool = elim (checked_add addr length) [
      | none ↦ false
      | some hint_end ↦ range_is_free ms addr hint_end
    ] in
    if fixed
    then (if is_multiple_of addr page_size then ok addr else err einval)
    else if not (addr == 0) && is_multiple_of addr page_size && hinted
    then ok addr
    else elim (find_free_region ms length) [ none ↦ err enomem | some a ↦ ok a ]

-- `mmap` from the allocation on.
unfoldable pub mmap_fill : Machine → List UserMapping → ℕ → ℕ → ℕ → PageTableEntryFlags → After ℕ
mmap_fill s ms tid target length flags =
    let r = alloc_frames s.allocator length in
    elim (r.1) [
      | none ↦ finish (record s { allocator = r.0 }) ms (err enomem)
      | some frames ↦
          let memory = zero_frames s.memory frames in
          let m =
            map_frame (record s { allocator = r.0; memory = memory }) ms tid target frames flags in
          elim m.answer [
            | err e ↦ finish m.machine m.mappings (err e)
            | ok u ↦ finish m.machine m.mappings (ok target)
          ]
    ]

-- `mmap` on the mappings of the task, with the length rounded up.
unfoldable pub mmap_task : Machine → ℕ → ℕ → ℕ → ℕ → ℕ → List UserMapping → After ℕ
mmap_task s tid addr length prot flags ms = elim (mmap_target ms addr length (is_fixed flags)) [
  | err e ↦ finish s ms (err e)
  | ok target ↦ elim (checked_add target length) [
    | none ↦ finish s ms (err enomem)
    | some end ↦
        let u = unmap_range s ms tid target end in
        if not (is_canonical_user_range target end)
        then finish s ms (err enomem)
        else if is_noreplace flags && not (range_is_free ms target end)
        then finish s ms (err eexist)
        else if is_fixed flags && not (is_noreplace flags)
        then elim u.answer [
          | err e ↦ finish u.machine u.mappings (err e)
          | ok a ↦ mmap_fill u.machine u.mappings tid target length (prot_to_page_flags prot)
        ]
        else mmap_fill s ms tid target length (prot_to_page_flags prot)
  ]
]

-- `fd` is whether the descriptor is -1.
unfoldable pub mmap : System → ℕ → ℕ → ℕ → ℕ → ℕ → Bool → ℕ → System × Result ℕ ErrorCode
mmap s tid addr length prot flags fd offset =
    if bit_and flags (2 ^ 5) == 0
    then (s, err enosys)
    else if not fd || not (offset == 0)
    then (s, err einval)
    else if not (bit_and prot (bit_not 64 prot_mask) == 0)
    then (s, err einval)
    else if length == 0 || leb (2 ^ 64 - 1 - page_size) length
    then (s, err einval)
    else with_task s tid (mmap_task s.machine tid addr (align_up length) prot flags)

-- `munmap`, whose answer is 0 where the code has a unit.
unfoldable pub munmap : System → ℕ → ℕ → ℕ → System × Result ℕ ErrorCode
munmap s tid addr length =
    if not (is_multiple_of addr page_size) || length == 0
    then (s, err einval)
    else elim (checked_add addr length) [
      | none ↦ (s, err einval)
      | some end ↦ with_task s tid (λ ms.
          let u = unmap_range s.machine ms tid addr end in
          elim u.answer [
            | err e ↦ finish u.machine u.mappings (err e)
            | ok a ↦ finish u.machine u.mappings (ok 0)
          ])
    ]

-- `rebuild` with the flags of the first page, and the answer `dest`.
unfoldable pub rebuild_at : Machine → List UserMapping → ℕ → ℕ → ℕ → ℕ → ℕ → After ℕ
rebuild_at s ms tid old_start old_end dest new_size = elim (flags_of_first ms old_start) [
  | none ↦ finish s ms (err efault)
  | some flags ↦
      let r = rebuild s ms tid old_start old_end dest new_size flags in
      elim r.answer [
        | err e ↦ finish r.machine r.mappings (err e)
        | ok u ↦ finish r.machine r.mappings (ok dest)
      ]
]

unfoldable pub move_to : Machine → List UserMapping → ℕ → ℕ → ℕ → ℕ → ℕ → Bool → After ℕ
move_to s ms tid old_start old_end dest new_size replace = elim (checked_add dest new_size) [
  | none ↦ finish s ms (err enomem)
  | some dest_end ↦
      let u = unmap_range s ms tid dest dest_end in
      if not (is_canonical_user_range dest dest_end)
      then finish s ms (err enomem)
      else if ltb dest old_end && ltb old_start dest_end
      then finish s ms (err enomem)
      else if replace
      then elim u.answer [
        | err e ↦ finish u.machine u.mappings (err e)
        | ok a ↦ rebuild_at u.machine u.mappings tid old_start old_end dest new_size
      ]
      else if not (range_is_free ms dest dest_end)
      then finish s ms (err enomem)
      else rebuild_at s ms tid old_start old_end dest new_size
]

-- Whether the range can grow where it is.
unfoldable pub grow_in_place : List UserMapping → ℕ → ℕ → ℕ → Bool
grow_in_place ms old_address old_end growth = elim (checked_add old_end growth) [
  | none ↦ false
  | some end ↦
      range_is_free ms old_end end && is_canonical_user_range old_address (old_end + growth)
]

unfoldable pub mremap_task : Machine → ℕ → ℕ → ℕ → ℕ → ℕ → ℕ → ℕ → List UserMapping → After ℕ
mremap_task s tid old_address old_end old_size new_size flags new_address ms =
    let fixed = not (bit_and flags 2 == 0) in
    let moved = move_to s ms tid old_address old_end new_address new_size true in
    let rebuilt = rebuild_at s ms tid old_address old_end old_address new_size in
    if new_size == old_size
    then (if fixed && not (new_address == old_address) then moved else finish s ms (ok old_address))
    else if not (range_fully_mapped ms old_address old_end)
    then finish s ms (err efault)
    else if ltb new_size old_size
    then rebuilt
    else if grow_in_place ms old_address old_end (new_size - old_size)
    then rebuilt
    else if fixed
    then moved
    else if not (bit_and flags 1 == 0)
    then elim (find_free_region ms new_size) [
      | none ↦ finish s ms (err enomem)
      | some dest ↦ move_to s ms tid old_address old_end dest new_size false
    ]
    else finish s ms (err enomem)

-- The sizes and the address that `mremap` does not take.
unfoldable pub is_refused : ℕ → ℕ → ℕ → Bool
is_refused old_address old_size new_size =
    not (is_multiple_of old_address page_size)
    || old_size == 0
    || new_size == 0
    || not (is_multiple_of old_size page_size)
    || not (is_multiple_of new_size page_size)
    || leb (2 ^ 64 - 1 - page_size) new_size

unfoldable pub mremap : System → ℕ → ℕ → ℕ → ℕ → ℕ → ℕ → System × Result ℕ ErrorCode
mremap s tid old_address old_size new_size flags new_address =
    if is_refused old_address old_size new_size
    then (s, err einval)
    else elim (checked_add old_address old_size) [
      | none ↦ (s, err einval)
      | some old_end ↦
          if not (bit_and flags 2 == 0) && not (is_multiple_of new_address page_size)
          then (s, err einval)
          else with_task s tid
              (mremap_task s.machine tid old_address old_end old_size new_size flags new_address)
    ]
