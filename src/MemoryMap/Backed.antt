-- ===== src/MemoryMap/Backed.antt =====
-- `mmap` of src/mm/memory_map.rs where it replaces no mapping: what the page tables hold after it.
use athera.Prelude.{
  ℕ, ◌+◌, ◌-◌, ◌%◌, ◌^◌, ◌≤◌, ◌<◌, ◌≡◌, refl, sym, subst, some, true, false, not, ◌&&◌, ◌||◌, List,
  [], ◌∷◌, ◌++◌, ltb, arith, inl, inr, Bool-cases, Option-cases,
}
use athera.Prelude.Result.{ok, err, Result-cases}
use athera.Prelude.BTreeMap.{get}
use athera.Frames.{Frame, alloc_frames}
use athera.Frames.Segments.{total, rounded, alloc_frames-total}
use athera.PageTable.{PageTableEntryFlags, AddressSpace, new_entry, leaf}
use athera.PageTable.Translate.{translate, IsTree}
use athera.MemoryMap.{
  ErrorCode, enomem, eexist, UserMapping, range_is_free, phys_at_offset, is_canonical_user_range,
  prot_to_page_flags,
}
use athera.MemoryMap.Pages.{Machine, After, map_frame, zero_frames}
use athera.MemoryMap.Calls.{checked_add, is_fixed, is_noreplace, mmap_target, mmap_fill, mmap_task}
use athera.MemoryMap.Keeps.{IsWords}
use athera.MemoryMap.Mapped.{Fills, fills, fills_not, mmap_fill-Fills}
use athera.MemoryMap.Tasks.{mmap_target_aligned}
use athera.MemoryMap.Entered.{SuppliesFrames, Entered}
use athera.MemoryMap.EnteredFrames.{AreAligned, map_frame-Entered}

pub phys_at_offset-total :
    (frames : List Frame) (off : ℕ)
    → off < total frames
    → (p : ℕ) × (phys_at_offset frames off ≡ some p)
unfolding phys_at_offset total
phys_at_offset-total [] off h = absurd (omega arith)
phys_at_offset-total (f ∷ fs) off h = elim (Bool-cases (ltb off f.size)) [
  | inl l ↦ (f.start + off, rw l refl)
  | inr l ↦
      let (p, e) = phys_at_offset-total fs (off - f.size) (ground (arith, h, l)) in (p, rw l e)
]

-- The state of `mmap` after the frames are there and cleared.
unfoldable pub cleared : Machine → ℕ → List Frame → Machine
cleared s length frames = record s {
  allocator = (alloc_frames s.allocator length).0;
  memory = zero_frames s.memory frames;
}

-- The frames that `alloc_frames` answers are whole pages, and the allocator then gives fresh pages
-- for the tables on every round of the mapping.
pub record Equips (s : Machine) (tid target length : ℕ) (flags : PageTableEntryFlags) : Type 0 where
  pub aligned :
      (frames : List Frame) → (alloc_frames s.allocator length).1 ≡ some frames → AreAligned frames
  pub supplied :
      (frames : List Frame)
      → (alloc_frames s.allocator length).1 ≡ some frames
      → SuppliesFrames (cleared s length frames) tid target frames flags

-- The `length` bytes from `a` on translate to the bytes of frames of `alloc_frames`, the other
-- addresses have the translation that they had, and the list has the mapping.
pub record Backs (s : Machine) (ms : List UserMapping) (tid a length : ℕ)
    (flags : PageTableEntryFlags) (space : AddressSpace) (r : After ℕ) : Type 0 where
  frames : List Frame
  given : (alloc_frames s.allocator length).1 ≡ some frames
  entered : Entered tid space a (a + total frames) (phys_at_offset frames) flags r.machine.spaces
  bytes :
      (off : ℕ)
      → off < length
      → (p : ℕ) × (phys_at_offset frames off ≡ some p)
        × (translate entered.space_after (a + off) ≡ some (leaf new_entry p flags))
  recorded : r.mappings ≡ ms ++ (record { va = a; frames = frames; flags = flags } ∷ [])

mmap_fill-Backs :
    (s : Machine) (ms : List UserMapping) (tid a length : ℕ) (flags : PageTableEntryFlags)
    (space : AddressSpace)
    → get tid s.spaces.user ≡ some space
    → IsTree space
    → (flags.r || flags.w || flags.x) ≡ true
    → a % 4096 ≡ 0
    → a + rounded length ≤ 2 ^ 39
    → Equips s tid a length flags
    → (mmap_fill s ms tid a length flags).answer ≡ ok a
    → Backs s ms tid a length flags space (mmap_fill s ms tid a length flags)
unfolding mmap_fill cleared
mmap_fill-Backs s ms tid a length flags space f t rwx al h eq q =
    elim (Option-cases ((alloc_frames s.allocator length).1)) [
      | inl g ↦ let no : err enomem ≡ ok a = rw (g, mmap_fill) at q in absurd (ground (arith, no))
      | inr (frames, g) ↦
          let sizes = alloc_frames-total s.allocator length frames g in
          let m = map_frame (cleared s length frames) ms tid a frames flags in
          elim (Result-cases m.answer) [
            | inr (e, w) ↦
                let no : err e ≡ ok a = rw (g, w, mmap_fill) at q in absurd (ground (arith, no))
            | inl (u, w) ↦
                let (entered, listed) =
                  map_frame-Entered (cleared s length frames) ms tid a frames flags space f t al
                    (eq.aligned frames g) (omega (arith, sizes.0, h)) rwx (eq.supplied frames g)
                    w in
                rw (g, w, mmap_fill)
                  (record {
                    frames = frames;
                    given = g;
                    entered = entered;
                    bytes = λ off l.
                        let (p, e) = phys_at_offset-total frames off (omega (arith, l, sizes.1)) in
                        (p, e, entered.inside off p e);
                    recorded = listed;
                  })
          ]
    ]

mmap_fill_target :
    (s : Machine) (ms : List UserMapping) (tid target length a : ℕ) (flags : PageTableEntryFlags)
    → (mmap_fill s ms tid target length flags).answer ≡ ok a
    → target ≡ a
mmap_fill_target s ms tid target length a flags q =
    answered (mmap_fill-Fills s ms tid target length flags) q
  where
    answered : {r : After ℕ} → Fills ms target length flags r → r.answer ≡ ok a → target ≡ a
    answered (fills s' frames e le bs) q = ground (arith, q)
    answered (fills_not s' e) q = absurd (ground (arith, q))

-- When `mmap` of a length of whole pages may not replace a mapping and lets a user do something, and
-- answers `a` in a task whose space is a tree of tables, with its frames below 2 ^ 39, and the
-- allocator gives whole pages for them and fresh pages for the tables: each of the `length` bytes
-- from `a` on translates in the tables of the space to its byte of the frames of `alloc_frames`,
-- with the flags of `prot`; every address below 2 ^ 39 outside of the frames has the translation
-- that it had; and the mapping is appended to the list.
pub mmap_task-Backs :
    (s : Machine) (ms : List UserMapping) (tid addr length prot flags a : ℕ) (space : AddressSpace)
    → IsWords ms
    → addr < 2 ^ 64
    → length % 4096 ≡ 0
    → (is_fixed flags && not (is_noreplace flags)) ≡ false
    → ((prot_to_page_flags prot).r || (prot_to_page_flags prot).w || (prot_to_page_flags prot).x)
      ≡ true
    → get tid s.spaces.user ≡ some space
    → IsTree space
    → a + rounded length ≤ 2 ^ 39
    → Equips s tid a length (prot_to_page_flags prot)
    → (mmap_task s tid addr length prot flags ms).answer ≡ ok a
    → Backs s ms tid a length
        (prot_to_page_flags prot)
        space
        (mmap_task s tid addr length prot flags ms)
unfolding mmap_task
mmap_task-Backs s ms tid addr length prot flags a space w hs e n rwx f t h eq q =
    elim (Result-cases (mmap_target ms addr length (is_fixed flags))) [
      | inr (x, g) ↦ refused x (rw (g, mmap_task) at q)
      | inl (target, g) ↦
          let page = mmap_target_aligned ms addr length target (is_fixed flags) w hs e g in
          elim (Option-cases (checked_add target length)) [
            | inl c ↦ refused enomem (rw (g, c, mmap_task) at q)
            | inr (end, c) ↦ elim (Bool-cases (not (is_canonical_user_range target end))) [
              | inl k ↦ refused enomem (rw (g, c, k, mmap_task) at q)
              | inr k ↦
                  elim (Bool-cases (is_noreplace flags && not (range_is_free ms target end))) [
                    | inl j ↦ refused eexist (rw (g, c, k, j, mmap_task) at q)
                    | inr j ↦
                        rw (g, c, k, j, n, mmap_task)
                          (filled target (page.1) (rw (g, c, k, j, n, mmap_task) at q))
                  ]
            ]
          ]
    ]
  where
    refused :
        {r : After ℕ} (x : ErrorCode)
        → err x ≡ ok a
        → Backs s ms tid a length (prot_to_page_flags prot) space r
    refused x q = absurd (ground (arith, q))

    filled :
        (target : ℕ)
        → target % 4096 ≡ 0
        → (mmap_fill s ms tid target length (prot_to_page_flags prot)).answer ≡ ok a
        → Backs s ms tid a length
            (prot_to_page_flags prot)
            space
            (mmap_fill s ms tid target length (prot_to_page_flags prot))
    filled target page q =
        let same = mmap_fill_target s ms tid target length a (prot_to_page_flags prot) q in
        let answer =
          subst (λ x. (mmap_fill s ms tid x length (prot_to_page_flags prot)).answer ≡ ok a) same
            q in
        subst
          (λ x.
            Backs s ms tid a length (prot_to_page_flags prot) space
              (mmap_fill s ms tid x length (prot_to_page_flags prot)))
          (sym same)
          (mmap_fill-Backs s ms tid a length (prot_to_page_flags prot) space f t rwx
            (subst (λ x. x % 4096 ≡ 0) same page) h eq answer)
