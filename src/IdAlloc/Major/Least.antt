-- ===== src/IdAlloc/Major/Least.antt =====
-- `alloc` and `alloc_minor`: the least vacant number outside the majors, and in one major.
use athera.Prelude.{
  ℕ, ◌≤◌, ◌≡◌, sym, ap, ◌∙◌, Option, none, some, true, false, arith, inl, inr, Option-cases,
}
use athera.Prelude.BTreeMap.{get, insert, insert_same}
use athera.IdAlloc.Ranges.Spec.{is_free}
use athera.IdAlloc.Flat
use athera.IdAlloc.Flat.{FlatAlloc}
use athera.IdAlloc.Flat.Ops.{Allocs, alloc-Allocs}
use athera.IdAlloc.Flat.Ops
use athera.IdAlloc.Flat.Valid.{is_free_bounds}
use athera.IdAlloc.Major.{IdAlloc, MajorSlot, alloc, alloc_minor}
use athera.IdAlloc.Major.Blocks.{base_of, within_lem}
use athera.IdAlloc.Major.Valid.{
  is_some, owned, no_major, IsValid, vacant, vacant_flat, vacant_slot, flat_unowned,
}
use athera.IdAlloc.Major.Ids.{Assigns, flat_Assigns, slot_Assigns}

-- The answers of `alloc`.
pub data Alloc (w n : ℕ) (a : IdAlloc) : IdAlloc × Option ℕ → Type 0 where
  full : ((i : ℕ) → owned n a.majors i ≡ false → vacant n a i ≡ false) → Alloc w n a (a, none)
  least :
      (id : ℕ) (a' : IdAlloc)
      → Assigns w n a id a'
      → owned n a.majors id ≡ false
      → ((i : ℕ) → owned n a.majors i ≡ false → vacant n a i ≡ true → id ≤ i)
      → Alloc w n a (a', some id)

-- The answers of `alloc_minor`.
pub data AllocMinor (w n : ℕ) (a : IdAlloc) (major : ℕ) : IdAlloc × Option ℕ → Type 0 where
  absent : get major a.majors ≡ none → AllocMinor w n a major (a, none)
  full :
      (s : MajorSlot)
      → get major a.majors ≡ some s
      → ((i : ℕ) → base_of n i ≡ major → vacant n a i ≡ false)
      → AllocMinor w n a major (a, none)
  least :
      (id : ℕ) (a' : IdAlloc)
      → Assigns w n a id a'
      → base_of n id ≡ major
      → ((i : ℕ) → base_of n i ≡ major → vacant n a i ≡ true → id ≤ i)
      → AllocMinor w n a major (a', some id)

module _ (w n : ℕ) (a : IdAlloc) (v : IsValid w n a) where
  unowned : (i : ℕ) → owned n a.majors i ≡ false → get (base_of n i) a.majors ≡ none
  unowned i h = elim (Option-cases (get (base_of n i) a.majors)) [
    | inl e ↦ e
    | inr (s, e) ↦ absurd (ground arith)
  ]

  outside : (i : ℕ) → owned n a.majors i ≡ false → vacant n a i ≡ is_free i a.flat.ranges
  outside i h = vacant_flat n i a (unowned i h)

  Alloc-from :
      (r : FlatAlloc × Option ℕ)
      → Allocs w (owned n a.majors) a.flat r
      → Alloc w n a (record a { flat = r.0 }, r.1)
  Alloc-from _ (Ops.full h) = full (λ i o. outside i o ∙ h i)
  Alloc-from _ (Ops.least id f' t low) =
      least id (record a { flat = f' }) (flat_Assigns w n a v id f' t)
        (ap is_some (flat_unowned w n id a v t.was_free)) (λ i o h. low i (sym (outside i o) ∙ h))

  -- On a valid allocator, `alloc` gives out the least ID that is vacant and in no major, and answers
  -- `None` only when there is no such ID.
  pub alloc-Alloc : Alloc w n a (alloc w a)
  unfolding alloc
  alloc-Alloc = Alloc-from (Flat.alloc w a.flat) (alloc-Allocs w (owned n a.majors) a.flat v.flat)

  module _ (major : ℕ) (s : MajorSlot) (e : get major a.majors ≡ some s) where
    in_slot : (i : ℕ) → base_of n i ≡ major → vacant n a i ≡ is_free i s.inner.ranges
    in_slot i q = vacant_slot n i a s (ap (λ b. get b a.majors) q ∙ e)

    minor_base : (id : ℕ) → is_free id s.inner.ranges ≡ true → base_of n id ≡ major
    minor_base id h =
        let slot = v.slots major s e in
        let bounds =
          is_free_bounds s.inner.start s.inner.end id s.inner.ranges slot.inner.formed h in
        ground (arith, within_lem n major id slot.aligned, slot.first, slot.last, bounds)

    minor_from :
        (r : FlatAlloc × Option ℕ)
        → Allocs w no_major s.inner r
        → AllocMinor w n a major
            (record a { majors = insert major (record { inner = r.0 }) a.majors }, r.1)
    minor_from _ (Ops.full h) =
        rw (insert_same 0 major s a.majors v.ordered e) (full s e (λ i q. in_slot i q ∙ h i))
    minor_from _ (Ops.least id f' t low) =
        let q = minor_base id t.was_free in
        least id _ (slot_Assigns w n a v major s e f' id q t) q
          (λ i b h. low i (sym (in_slot i b) ∙ h))

  -- On a valid allocator, `alloc_minor` gives out the least vacant ID of the major, and answers `None`
  -- only when there is no such major or none of its IDs is vacant.
  pub alloc_minor-AllocMinor : (major : ℕ) → AllocMinor w n a major (alloc_minor w a major)
  unfolding alloc_minor
  alloc_minor-AllocMinor major = elim (Option-cases (get major a.majors)) [
    | inl e ↦ rw (e, alloc_minor) (absent e)
    | inr (s, e) ↦
        rw (e, alloc_minor)
          (minor_from major s e (Flat.alloc w s.inner)
            (alloc-Allocs w no_major s.inner (v.slots major s e).inner))
  ]
