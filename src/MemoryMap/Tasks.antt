-- ===== src/MemoryMap/Tasks.antt =====
-- `mmap` and `mremap` on the mappings of one task.
use Prim.Native.Nat.{bit_and}
use athera.Prelude.{
  ℕ, ◌+◌, ◌-◌, ◌%◌, ◌^◌, ◌≤◌, ◌<◌, ◌≡◌, ◌≢◌, sym, subst, inl, inr, none, some, Bool, true, false,
  not, ◌&&◌, List, [], ltb, leb, ◌==◌, if◌then◌else◌, arith, Bool-cases, Option-cases,
}
use athera.Prelude.Result.{ok, err, Result-cases}
use athera.Prelude.BTreeMap.{get}
use athera.Frames.{page_size}
use athera.MemoryMap.{
  ErrorCode, enomem, efault, eexist, UserMapping, range_is_free, range_fully_mapped, align_up,
  find_free_region, is_canonical_user_range, prot_to_page_flags,
}
use athera.MemoryMap.Pages.{Machine, After, finish, unmap_range}
use athera.MemoryMap.Calls.{
  System, checked_add, is_multiple_of, is_fixed, is_noreplace, mmap_target, mmap_fill, mmap_task,
  rebuild_at, move_to, grow_in_place, mremap_task,
}
use athera.MemoryMap.Align.{page_start-mod}
use athera.MemoryMap.Keeps.{IsWords}
use athera.MemoryMap.Whole.{
  IsCovered, Places, mmap_fill-Places, rebuild_at-Places, move_to-Places, find_free_region_aligned,
}

-- The mappings of a task, none for one that is not there.
unfoldable pub mappings_of : System → ℕ → List UserMapping
mappings_of s tid = elim (get tid s.tasks) [ none ↦ [] | some ms ↦ ms ]

-- `align_up` of a length that `mmap` accepts.
pub align_up_length :
    (length : ℕ)
    → leb (2 ^ 64 - 1 - page_size) length ≡ false
    → (length ≤ align_up length) × (align_up length % 4096 ≡ 0)
unfolding align_up
align_up_length length h =
    let e = page_start-mod (length + page_size - 1) (ground (arith, h)) in
    (omega arith, omega arith)

-- A call that answers nothing but an address with `length` bytes mapped.
pub record Gives (length : ℕ) (r : After ℕ) : Type 0 where
  pub at : (a : ℕ) → r.answer ≡ ok a → IsCovered r.mappings a length

Places-Gives : (target length : ℕ) {r : After ℕ} → Places target length r → Gives length r
Places-Gives target length {r = r} p = record {
  at = λ a h. let q = p.at a h in subst (λ x. IsCovered r.mappings x length) (sym (q.0)) (q.1);
}

failed-Gives :
    (length : ℕ) (s : Machine) (ms : List UserMapping) (e : ErrorCode)
    → Gives length (finish s ms (err e))
failed-Gives length s ms e = record { at = λ a p. absurd (ground (arith, p)) }

split-Gives :
    {length : ℕ} (b : Bool) {x y : After ℕ}
    → Gives length x
    → Gives length y
    → Gives length (if b then x else y)
split-Gives true p q = p
split-Gives false p q = q

pub mmap_target_aligned :
    (ms : List UserMapping) (addr length target : ℕ) (fixed : Bool)
    → IsWords ms
    → addr < 2 ^ 64
    → length % 4096 ≡ 0
    → mmap_target ms addr length fixed ≡ ok target
    → (target < 2 ^ 64) × (target % 4096 ≡ 0)
unfolding mmap_target is_multiple_of
mmap_target_aligned ms addr length target fixed w h e q = elim (Bool-cases fixed) [
  | inl f ↦ elim (Bool-cases (addr % page_size == 0)) [
    | inl c ↦ pinned (ground (arith, q, f, c)) (ground (arith, c))
    | inr c ↦ absurd (ground (arith, q, f, c))
  ]
  | inr f ↦ elim (Bool-cases (not (addr == 0) && addr % page_size == 0 && hinted)) [
    | inl c ↦ pinned (ground (arith, q, f, c)) (ground (arith, c))
    | inr c ↦ elim (Option-cases (find_free_region ms length)) [
      | inl r ↦ absurd (ground (arith, q, f, c, r))
      | inr (a, r) ↦
          let same : a ≡ target = ground (arith, q, f, c, r) in
          find_free_region_aligned ms length target w e (rw⁻¹ same r)
    ]
  ]
]
  where
    hinted : Bool
    hinted = elim (checked_add addr length) [
      | none ↦ false
      | some hint_end ↦ range_is_free ms addr hint_end
    ]

    pinned : addr ≡ target → addr % page_size ≡ 0 → (target < 2 ^ 64) × (target % 4096 ≡ 0)
    pinned same c = rw⁻¹ same (h, c)

pub mmap_task-Gives :
    (s : Machine) (tid addr length prot flags : ℕ) (ms : List UserMapping)
    → IsWords ms
    → addr < 2 ^ 64
    → length % 4096 ≡ 0
    → Gives length (mmap_task s tid addr length prot flags ms)
unfolding mmap_task
mmap_task-Gives s tid addr length prot flags ms w h e =
    elim (Result-cases (mmap_target ms addr length (is_fixed flags))) [
      | inr (c, q) ↦ rw (q, mmap_task) (failed-Gives length s ms c)
      | inl (target, q) ↦
          let page = mmap_target_aligned ms addr length target (is_fixed flags) w h e q in
          elim (Option-cases (checked_add target length)) [
            | inl c ↦ rw (q, c, mmap_task) (failed-Gives length s ms enomem)
            | inr (end, c) ↦
                rw (q, c, mmap_task)
                  (split-Gives (not (is_canonical_user_range target end))
                    (failed-Gives length s ms enomem)
                    (split-Gives (is_noreplace flags && not (range_is_free ms target end))
                      (failed-Gives length s ms eexist)
                      (split-Gives (is_fixed flags && not (is_noreplace flags))
                        (torn target page (unmap_range s ms tid target end))
                        (filled s ms target page))))
          ]
    ]
  where
    filled :
        (s' : Machine) (ms' : List UserMapping) (target : ℕ)
        → (target < 2 ^ 64) × (target % 4096 ≡ 0)
        → Gives length (mmap_fill s' ms' tid target length (prot_to_page_flags prot))
    filled s' ms' target page =
        Places-Gives target length
          (mmap_fill-Places s' ms' tid target length (prot_to_page_flags prot) (page.0) (page.1))

    torn :
        (target : ℕ)
        → (target < 2 ^ 64) × (target % 4096 ≡ 0)
        → (u : After (Unit {0}))
        → Gives length (elim u.answer [
          | err e ↦ finish u.machine u.mappings (err e)
          | ok a ↦ mmap_fill u.machine u.mappings tid target length (prot_to_page_flags prot)
        ])
    torn target page u = elim (Result-cases u.answer) [
      | inl (a, p) ↦ rw p (filled u.machine u.mappings target page)
      | inr (c, p) ↦ rw p (failed-Gives length u.machine u.mappings c)
    ]

pub mremap_task-Gives :
    (s : Machine) (tid old_address old_end old_size new_size flags new_address : ℕ)
    (ms : List UserMapping)
    → IsWords ms
    → old_address < 2 ^ 64
    → old_address % 4096 ≡ 0
    → new_address < 2 ^ 64
    → (not (bit_and flags 2 == 0) && not (is_multiple_of new_address page_size)) ≡ false
    → new_size % 4096 ≡ 0
    → new_size ≢ old_size
    → Gives new_size (mremap_task s tid old_address old_end old_size new_size flags new_address ms)
unfolding mremap_task is_multiple_of
mremap_task-Gives s tid old_address old_end old_size new_size flags new_address ms w h e l f n ne =
    let other : (new_size == old_size) ≡ false = ground (arith, ne) in
    rw (other, mremap_task)
      (split-Gives (not (range_fully_mapped ms old_address old_end))
        (failed-Gives new_size s ms efault)
        (split-Gives (ltb new_size old_size) rebuilt (
          split-Gives (grow_in_place ms old_address old_end (new_size - old_size)) rebuilt
            (elim (Bool-cases (bit_and flags 2 == 0)) [
              | inr c ↦ rw c (moved new_address true l (ground (arith, f, c)))
              | inl c ↦ rw c (
                  split-Gives (not (bit_and flags 1 == 0))
                    (elim (Option-cases (find_free_region ms new_size)) [
                      | inl q ↦ rw q (failed-Gives new_size s ms enomem)
                      | inr (dest, q) ↦
                          let page = find_free_region_aligned ms new_size dest w n q in
                          rw q (moved dest false (page.0) (page.1))
                    ])
                    (failed-Gives new_size s ms enomem))
            ]))))
  where
    rebuilt : Gives new_size (rebuild_at s ms tid old_address old_end old_address new_size)
    rebuilt =
        Places-Gives old_address new_size
          (rebuild_at-Places s ms tid old_address old_end old_address new_size h e)

    moved :
        (dest : ℕ) (replace : Bool)
        → dest < 2 ^ 64
        → dest % 4096 ≡ 0
        → Gives new_size (move_to s ms tid old_address old_end dest new_size replace)
    moved dest replace k m =
        Places-Gives dest new_size
          (move_to-Places s ms tid old_address old_end dest new_size replace k m)
