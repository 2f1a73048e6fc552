-- ===== src/MemoryMap/System.antt =====
-- The list of mappings after `mmap` and `mremap`.
use Prim.Native.Nat.{bit_and}
use athera.Prelude.{
  ℕ, ◌+◌, ◌-◌, ◌%◌, ◌^◌, ◌≤◌, ◌<◌, ◌≡◌, ◌≢◌, refl, inl, inr, some, Bool, true, false, not, ◌&&◌,
  ◌||◌, List, leb, ◌==◌, if◌then◌else◌, arith, Bool-cases, Option-cases,
}
use athera.Prelude.Result.{Result, ok, err}
use athera.Prelude.BTreeMap.{get, get-insert}
use athera.Prelude.Bits.{bit_not}
use athera.Frames.{page_size}
use athera.MemoryMap.{
  ErrorCode, einval, esrch, enosys, UserMapping, range_is_free, align_up, prot_mask,
}
use athera.MemoryMap.Pages.{After}
use athera.MemoryMap.Calls.{
  System, is_refused, with_task, checked_add, is_multiple_of, mmap_task, mmap, mremap_task, mremap,
}
use athera.MemoryMap.Keeps.{IsWords}
use athera.MemoryMap.Whole.{}
use athera.MemoryMap.Tasks.{mappings_of, align_up_length, Gives, mmap_task-Gives, mremap_task-Gives}

-- What `with_task` keeps of a call.
with_task-Gives :
    (s : System) (tid length a va : ℕ) (call : List UserMapping → After ℕ)
    → ((ms : List UserMapping) → get tid s.tasks ≡ some ms → Gives length (call ms))
    → (with_task s tid call).1 ≡ ok a
    → a ≤ va
    → va < a + length
    → range_is_free (mappings_of ((with_task s tid call).0) tid) va (va + 1) ≡ false
unfolding with_task mappings_of
with_task-Gives s tid length a va call g q low high = elim (Option-cases (get tid s.tasks)) [
  | inl c ↦ let no : err esrch ≡ ok a = rw (c, with_task) at q in absurd (ground (arith, no))
  | inr (ms, c) ↦
      let answer : (call ms).answer ≡ ok a = rw (c, with_task) at q in
      let same : (tid == tid) ≡ true = ground arith in
      rw (c, with_task)
        (rw (get-insert tid tid (call ms).mappings s.tasks, same, mappings_of)
          ((g ms c).at a answer va low high))
]

found_words :
    (s : System) (tid : ℕ) (ms : List UserMapping)
    → IsWords (mappings_of s tid)
    → get tid s.tasks ≡ some ms
    → IsWords ms
unfolding mappings_of
found_words s tid ms w c = rw (c, mappings_of) at w

-- An answer passes a guard that would have answered an error.
passes :
    (b : Bool) (s : System) (e : ErrorCode) (y : System × Result ℕ ErrorCode) (a : ℕ)
    → (if b then (s, err e) else y).1 ≡ ok a
    → (b ≡ false) × (y.1 ≡ ok a)
passes true s e y a q = absurd (ground (arith, q))
passes false s e y a q = (refl, q)

-- When `mmap` answers an address, the list of mappings of the task covers every byte of the `length`
-- bytes from there.
mmap-mapped :
    (s : System) (tid addr length prot flags : ℕ) (fd : Bool) (offset a va : ℕ)
    → IsWords (mappings_of s tid)
    → addr < 2 ^ 64
    → (mmap s tid addr length prot flags fd offset).1 ≡ ok a
    → a ≤ va
    → va < a + length
    → range_is_free (mappings_of ((mmap s tid addr length prot flags fd offset).0) tid) va (va + 1)
      ≡ false
unfolding mmap
mmap-mapped s tid addr length prot flags fd offset a va w h q low high =
    let call = mmap_task s.machine tid addr (align_up length) prot flags in
    let (c1, q1) = passes (bit_and flags (2 ^ 5) == 0) s enosys _ a q in
    let (c2, q2) = passes (not fd || not (offset == 0)) s einval _ a q1 in
    let (c3, q3) = passes (not (bit_and prot (bit_not 64 prot_mask) == 0)) s einval _ a q2 in
    let (c4, q4) =
      passes (length == 0 || leb (2 ^ 64 - 1 - page_size) length) s einval (with_task s tid call) a
        q3 in
    let up = align_up_length length (ground (arith, c4)) in
    rw (c1, c2, c3, c4)
      (with_task-Gives s tid (align_up length) a va call
        (λ ms c.
          mmap_task-Gives s.machine tid addr (align_up length) prot flags ms
            (found_words s tid ms w c) h (up.1))
        q4 low (omega (arith, up.0)))

accepted :
    (old_address old_size new_size old_end : ℕ)
    → is_refused old_address old_size new_size ≡ false
    → checked_add old_address old_size ≡ some old_end
    → (old_address < 2 ^ 64) × (old_address % 4096 ≡ 0) × (new_size % 4096 ≡ 0)
unfolding is_refused is_multiple_of checked_add
accepted old_address old_size new_size old_end r c =
    (ground (arith, r, c), ground (arith, r), ground (arith, r))

-- When `mremap` to another size answers an address, the list of mappings of the task covers every byte
-- of the `new_size` bytes from there.
mremap-mapped :
    (s : System) (tid old_address old_size new_size flags new_address a va : ℕ)
    → IsWords (mappings_of s tid)
    → new_address < 2 ^ 64
    → new_size ≢ old_size
    → (mremap s tid old_address old_size new_size flags new_address).1 ≡ ok a
    → a ≤ va
    → va < a + new_size
    → range_is_free
        (mappings_of ((mremap s tid old_address old_size new_size flags new_address).0) tid)
        va
        (va + 1)
      ≡ false
unfolding mremap
mremap-mapped s tid old_address old_size new_size flags new_address a va w h ne q low high =
    elim (Bool-cases (is_refused old_address old_size new_size)) [
      | inl r ↦ let no : err einval ≡ ok a = rw (r, mremap) at q in absurd (ground (arith, no))
      | inr r ↦ elim (Option-cases (checked_add old_address old_size)) [
        | inl c ↦ let no : err einval ≡ ok a = rw (r, c, mremap) at q in absurd (ground (arith, no))
        | inr (old_end, c) ↦
            let call =
              mremap_task s.machine tid old_address old_end old_size new_size flags new_address in
            let page = accepted old_address old_size new_size old_end r c in
            let (g, q1) =
              passes (not (bit_and flags 2 == 0) && not (is_multiple_of new_address page_size)) s
                einval (with_task s tid call) a (rw (r, c, mremap) at q) in
            rw (r, c, g, mremap)
              (with_task-Gives s tid new_size a va call
                (λ ms m.
                  mremap_task-Gives s.machine tid old_address old_end old_size new_size flags
                    new_address ms (found_words s tid ms w m) (page.0) (page.1) h g (page.2) ne)
                q1 low high)
      ]
    ]
