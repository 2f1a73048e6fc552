-- ===== src/IdAlloc/Flat/Ops.antt =====
-- What each method of `FlatAlloc` does to a valid allocator, on every branch.
use athera.Prelude.{
  ℕ, suc, ◌+◌, ◌-◌, ◌≤◌, ◌<◌, ◌≡◌, refl, subst, ◌∙◌, Bool, true, false, not, ◌&&◌, ltb, ◌==◌,
  if◌then◌else◌, arith, Option, none, some, inl, inr, Option-cases,
}
use athera.Prelude.Result.{ok, err}
use athera.Prelude.BTreeMap.{empty, entry, insert, last_below, insert_front}
use athera.IdAlloc.Id.{already_allocated, already_free, id_max, next}
use athera.IdAlloc.Ranges.{Ranges, available, split, insert_free_range}
use athera.IdAlloc.Ranges.Spec.{
  is_free, is_free_below, IsRanges, IsRanges-IsOrdered, scan-eq-is_free, IsClear_lem,
}
use athera.IdAlloc.Ranges.Cut.{cut, split-eq-cut, holds-last_below, holds-none}
use athera.IdAlloc.Ranges.Join.{join, insert_free_range_lem, give_back-eq-join}
use athera.IdAlloc.Flat.{
  FlatAlloc, returns, contains, is_allocated, alloc, alloc_first, take_out, alloc_at, dealloc,
}
use athera.IdAlloc.Flat.Valid.{
  is_used, IsValid, Takes, take-Takes, Gives, give-Gives, holds_one, is_free_bounds,
}

take_out_lem :
    (w id s e : ℕ) (m : Ranges) → id < id_max w → take_out w id s e m ≡ split id (id + 1) s e m
unfolding take_out split next
take_out_lem w id s e m h = ground arith

first_cut :
    (w lo hi id end : ℕ) (m : Ranges)
    → IsRanges lo hi (entry id end m)
    → hi ≤ id_max w
    → (elim (next w id) [ none ↦ m | some after ↦ if ltb after end then insert after end m else m ])
      ≡ cut id (id + 1) (entry id end m)
unfolding next cut
first_cut w lo hi id end m r h = ground (
  arith,
  insert_front (end + 1) (id + 1) end m (omega arith) (IsRanges-IsOrdered (end + 1) hi m r.3),
)

available-pos :
    (lo hi s e : ℕ) (m : Ranges) → IsRanges lo hi (entry s e m) → 0 < available (entry s e m)
unfolding available
available-pos lo hi s e m r = omega arith

first_free :
    (lo hi id end i : ℕ) (m : Ranges)
    → IsRanges lo hi (entry id end m)
    → (is_free id (entry id end m) ≡ true) × (is_free i (entry id end m) ≡ true → id ≤ i)
unfolding is_free
first_free lo hi id end i m r = ground (arith, is_free_below (end + 1) hi i m r.3)

-- What `alloc` may return: the least free number, or none when there is none.
pub data Allocs (w : ℕ) (reserved : ℕ → Bool) (f : FlatAlloc) : FlatAlloc × Option ℕ → Type 0 where
  full : ((i : ℕ) → is_free i f.ranges ≡ false) → Allocs w reserved f (f, none)
  least :
      (id : ℕ) (f' : FlatAlloc)
      → Takes w reserved f id f'
      → ((i : ℕ) → is_free i f.ranges ≡ true → id ≤ i)
      → Allocs w reserved f (f', some id)

alloc_on :
    (w : ℕ) (reserved : ℕ → Bool) (f : FlatAlloc) (m : Ranges)
    → IsValid w reserved f
    → f.ranges ≡ m
    → Allocs w reserved f (if available m == 0 then (f, none) else alloc_first w f m)
unfolding alloc_first
alloc_on w reserved f empty v e = unfold available is_free in full (λ i. rw e)
alloc_on w reserved f (entry id end m) v e =
    let formed : IsRanges f.start f.end (entry id end m) = rw e at v.formed in
    let pos : (available (entry id end m) == 0) ≡ false =
      ground (arith, available-pos f.start f.end id end m formed) in
    let takes =
      take-Takes w reserved f id v (rw e (first_free f.start f.end id end id m formed).0) in
    rw (pos, first_cut w f.start f.end id end m formed v.fits)
      (least id _
        (subst
          (λ r.
            Takes w reserved f id (record f { inuse = f.inuse + 1; ranges = cut id (id + 1) r }))
          e takes)
        (λ i h. (first_free f.start f.end id end i m formed).1 (rw e at h)))

module _ (w : ℕ) (reserved : ℕ → Bool) (f : FlatAlloc) (v : IsValid w reserved f) where
  -- `is_allocated` sees through the table.
  pub is_allocated_lem : (id : ℕ) → is_allocated f id ≡ (contains f id && not (is_free id f.ranges))
  unfolding is_allocated
  is_allocated_lem id = ground (arith, scan-eq-is_free f.start f.end id f.ranges v.formed)

  taken :
      (id s e : ℕ)
      → is_free id f.ranges ≡ true
      → last_below (suc id) f.ranges ≡ some (s, e)
      → take_out w id s e f.ranges ≡ cut id (id + 1) f.ranges
  taken id s e h n =
      let held = holds_one id f.ranges ∙ h in
      let bounds = is_free_bounds f.start f.end id f.ranges v.formed h in
      take_out_lem w id s e f.ranges (omega (arith, v.fits, bounds))
      ∙ split-eq-cut f.start f.end id (id + 1) s e f.ranges v.formed (omega arith) n (
          ground (
            arith,
            held,
            holds-last_below f.start f.end id (id + 1) s e f.ranges v.formed (omega arith) n,
          ))

  -- The `expect` of `alloc_at` does not fail.
  pub alloc_at-Takes :
      (id : ℕ)
      → is_free id f.ranges ≡ true
      → (f' : FlatAlloc) × (alloc_at w f id ≡ returns (f', ok tt)) × Takes w reserved f id f'
  unfolding alloc_at contains
  alloc_at-Takes id h = (
    record f { ranges = cut id (id + 1) f.ranges; inuse = f.inuse + 1 },
    elim (Option-cases (last_below (suc id) f.ranges)) [
      | inl n ↦ absurd (
          ground (
            arith,
            holds_one id f.ranges,
            holds-none f.start f.end id (id + 1) f.ranges v.formed n,
          ))
      | inr ((s, e), n) ↦ ground (
        arith,
        is_allocated_lem id,
        is_free_bounds f.start f.end id f.ranges v.formed h,
        taken id s e h n,
      )
    ],
    take-Takes w reserved f id v h,
  )

  pub alloc_at_busy :
      (id : ℕ)
      → contains f id ≡ true
      → is_free id f.ranges ≡ false
      → alloc_at w f id ≡ returns (f, err already_allocated)
  unfolding alloc_at
  alloc_at_busy id c h = ground (arith, is_allocated_lem id)

  pub dealloc-Gives :
      (id : ℕ)
      → id < f.end
      → is_used reserved f.start f.ranges id ≡ true
      → (f' : FlatAlloc) × (dealloc w f id ≡ returns (f', ok tt)) × Gives w reserved f id f'
  unfolding dealloc contains
  dealloc-Gives id l h = (
    record f { ranges = join id (id + 1) f.ranges; inuse = f.inuse - 1 },
    ground (
      arith,
      is_allocated_lem id,
      (give-Gives w reserved f id v l h).0,
      insert_free_range_lem w id f.ranges,
      v.fits,
      given id l h,
    ),
    (give-Gives w reserved f id v l h).1,
  )
    where
      given :
          (id : ℕ)
          → id < f.end
          → is_used reserved f.start f.ranges id ≡ true
          → insert_free_range w f.ranges id ≡ join id (id + 1) f.ranges
      given id l h =
          insert_free_range_lem w id f.ranges (omega (arith, v.fits))
          ∙ give_back-eq-join f.start f.end id (id + 1) f.ranges v.formed (omega arith) (
              IsClear_lem f.start f.end id (id + 1) f.ranges v.formed (omega arith)
                (λ i p q. let e : i ≡ id = omega arith in rw e (ground arith)))

  pub dealloc_free :
      (id : ℕ) → is_free id f.ranges ≡ true → dealloc w f id ≡ returns (f, err already_free)
  unfolding dealloc contains
  dealloc_free id h =
      ground (arith, is_allocated_lem id, is_free_bounds f.start f.end id f.ranges v.formed h)

  pub alloc-Allocs : Allocs w reserved f (alloc w f)
  unfolding alloc
  alloc-Allocs = alloc_on w reserved f f.ranges v refl
