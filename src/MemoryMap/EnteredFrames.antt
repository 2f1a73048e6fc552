-- ===== src/MemoryMap/EnteredFrames.antt =====
-- `map_frame` of src/mm/memory_map.rs over all its frames: what the page tables hold after it.
use athera.Prelude.{
  ℕ, ◌+◌, ◌-◌, ◌*◌, ◌%◌, ◌^◌, ◌≤◌, ◌<◌, ◌≡◌, ◌≢◌, ◌⊎◌, refl, subst, ◌∙◌, Option, none, some, true,
  false, ◌||◌, List, [], ◌∷◌, ◌++◌, ltb, if◌then◌else◌, arith, inl, inr, Bool-cases, Option-cases,
}
use athera.Prelude.Result.{ok, err}
use athera.Prelude.BTreeMap.{get}
use athera.Frames.{Frame}
use athera.Frames.Segments.{total}
use athera.PageTable.{
  MemError, PageTableEntryFlags, AddressSpace, AddressSpaceManager, new_entry, leaf,
}
use athera.PageTable.Translate.{translate, IsTree}
use athera.MemoryMap.{UserMapping, phys_at_offset, rounds}
use athera.MemoryMap.Pages.{
  Machine, After, finish, mem_errno, unmap_pages, drop_all, map_steps, map_segments, map_frame,
}
use athera.MemoryMap.Entered.{SuppliesFrames, Entered, bytes_from, map_steps-Entered}

-- Frames are whole pages.
abbrev pub AreAligned : List Frame → Type 0
AreAligned [] = Unit
AreAligned (f ∷ fs) = (f.start % 4096 ≡ 0) × (f.size % 4096 ≡ 0) × AreAligned fs

-- A frame entered at `va`, and then the others above it.
enter_frame :
    (tid va end : ℕ) (f : Frame) (fs : List Frame) (flags : PageTableEntryFlags)
    (space : AddressSpace) (mid spaces : AddressSpaceManager)
    (one : Entered tid space va (va + f.size) (bytes_from f.start f.size) flags mid)
    → va + f.size ≤ end
    → end ≤ 2 ^ 39
    → Entered tid one.space_after (va + f.size) end (phys_at_offset fs) flags spaces
    → Entered tid space va end (phys_at_offset (f ∷ fs)) flags spaces
unfolding phys_at_offset
enter_frame tid va end f fs flags space mid spaces one low high rest = record {
  space_after = rest.space_after;
  found = rest.found;
  tree = rest.tree;
  inside = λ off p q. at off p q (Bool-cases (ltb off f.size));
  outside = λ va' l w.
      rest.outside va' l (ground (arith, w, low)) ∙ one.outside va' l (ground (arith, w, low));
}
  where
    at :
        (off p : ℕ)
        → phys_at_offset (f ∷ fs) off ≡ some p
        → (ltb off f.size ≡ true) ⊎ (ltb off f.size ≡ false)
        → translate rest.space_after (va + off) ≡ some (leaf new_entry p flags)
    at off p q (inl l) =
        let lt : off < f.size = ground (arith, l) in
        rest.outside (va + off) (omega arith) (inl (omega arith))
        ∙ one.inside off p (rw l (rw l at q))
    at off p q (inr l) =
        let le : f.size ≤ off = ground (arith, l) in
        let there : va + off ≡ va + f.size + (off - f.size) = omega arith in
        rw there (rest.inside (off - f.size) p (rw l at q))

map_segments-Entered :
    (fs : List Frame) (s : Machine) (tid va : ℕ) (flags : PageTableEntryFlags)
    (space : AddressSpace)
    → get tid s.spaces.user ≡ some space
    → IsTree space
    → va % 4096 ≡ 0
    → AreAligned fs
    → va + total fs ≤ 2 ^ 39
    → SuppliesFrames s tid va fs flags
    → (map_segments s tid va fs flags).1 ≡ none
    → Entered tid space va
        (va + total fs)
        (phys_at_offset fs)
        flags
        ((map_segments s tid va fs flags).0.spaces)
unfolding map_segments SuppliesFrames total phys_at_offset rounds
map_segments-Entered [] s tid va flags space f t a al h p q = record {
  space_after = space;
  found = f;
  tree = t;
  inside = λ off x e. absurd (ground (arith, e));
  outside = λ va' l w. refl;
}
map_segments-Entered (f ∷ fs) s tid va flags space g t a al h p q =
    let n = rounds 0 f.size in
    let whole : n * 4096 ≡ f.size = omega (arith, al.1) in
    elim (Option-cases ((map_steps s tid va f.start flags n).1)) [
      | inr (e, w) ↦ absurd (stuck e (rw (w, map_segments) at q))
      | inl w ↦
          let next = (map_steps s tid va f.start flags n).0 in
          let first =
            map_steps-Entered n s tid va f.start flags space g t a (al.0) (omega (arith, whole, h))
              (p.0) w in
          let one : Entered tid space va (va + f.size) (bytes_from f.start f.size) flags
              next.spaces =
            subst
              (λ size. Entered tid space va (va + size) (bytes_from f.start size) flags next.spaces)
              whole first in
          let rest =
            map_segments-Entered fs next tid (va + f.size) flags one.space_after one.found one.tree
              (omega (arith, a, al.1)) (al.2) (omega (arith, h)) (p.1)
              (rw (w, map_segments) at q) in
          let top : va + f.size + total fs ≡ va + (f.size + total fs) = omega arith in
          let moved : Entered tid one.space_after (va + f.size) (va + (f.size + total fs))
              (phys_at_offset fs) flags ((map_segments next tid (va + f.size) fs flags).0.spaces) =
            subst
              (λ end.
                Entered tid one.space_after (va + f.size) end (phys_at_offset fs) flags
                  ((map_segments next tid (va + f.size) fs flags).0.spaces))
              top rest in
          rw (w, map_segments)
            (enter_frame tid va (va + (f.size + total fs)) f fs flags space next.spaces _ one
              (omega arith) h moved)
    ]
  where
    stuck : (x : ℕ × MemError) → some x ≢ none
    stuck x e = ground (arith, e)

-- When `map_frame` answers success, for frames of whole pages at a page below 2 ^ 39 with flags that
-- let a user do something, in a task whose space is a tree of tables, and the allocator gave fresh
-- pages for new tables on every round: every byte of the range translates in the tables of the space
-- to the page where `phys_at_offset` finds it in the frames, with the flags, and every address below
-- 2 ^ 39 and outside of the range has the translation that it had. The mapping is appended to the
-- list.
pub map_frame-Entered :
    (s : Machine) (ms : List UserMapping) (tid addr : ℕ) (frames : List Frame)
    (flags : PageTableEntryFlags) (space : AddressSpace)
    → get tid s.spaces.user ≡ some space
    → IsTree space
    → addr % 4096 ≡ 0
    → AreAligned frames
    → addr + total frames ≤ 2 ^ 39
    → (flags.r || flags.w || flags.x) ≡ true
    → SuppliesFrames s tid addr frames flags
    → (map_frame s ms tid addr frames flags).answer ≡ ok tt
    → Entered tid space addr
        (addr + total frames)
        (phys_at_offset frames)
        flags
        ((map_frame s ms tid addr frames flags).machine.spaces)
      × ((map_frame s ms tid addr frames flags).mappings
          ≡ ms ++ (record { va = addr; frames = frames; flags = flags } ∷ []))
unfolding map_frame
map_frame-Entered s ms tid addr frames flags space f t a al h rwx p q =
    answered
      (if flags.r || flags.w || flags.x then map_segments s tid addr frames flags else (s, none))
      (λ w. rw rwx (map_segments-Entered frames s tid addr flags space f t a al h p (rw rwx at w)))
      q
  where
    appended : List UserMapping
    appended = ms ++ (record { va = addr; frames = frames; flags = flags } ∷ [])

    left : Machine × Option (ℕ × MemError) → After (Unit {0})
    left r = elim (r.1) [
      | none ↦ finish (r.0) appended (ok tt)
      | some (failed, e) ↦
          let back = unmap_pages (r.0).spaces tid addr (rounds addr failed) in
          finish (drop_all (record (r.0) { spaces = back }) frames) ms (err (mem_errno e))
    ]

    answered :
        (r : Machine × Option (ℕ × MemError))
        → (r.1 ≡ none
            → Entered tid space addr
                (addr + total frames)
                (phys_at_offset frames)
                flags
                (r.0.spaces))
        → (left r).answer ≡ ok tt
        → Entered tid space addr
            (addr + total frames)
            (phys_at_offset frames)
            flags
            ((left r).machine.spaces)
          × ((left r).mappings ≡ appended)
    answered (s', none) e q = (e refl, refl)
    answered (s', some (failed, x)) e q = absurd (ground (arith, q))
