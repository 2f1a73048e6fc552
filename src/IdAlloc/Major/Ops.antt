-- ===== src/IdAlloc/Major/Ops.antt =====
-- `alloc_at`, `dealloc`, `alloc` and `alloc_minor`: what each returns, on every branch, as a
-- relation to the state before.
use athera.Prelude.{
  ℕ, ◌≤◌, ◌<◌, ◌≡◌, refl, sym, ap, subst, ◌∙◌, Option, none, some, Bool, true, false, not, ◌&&◌,
  ltb, leb, ◌==◌, if◌then◌else◌, arith, inl, inr, Option-cases, Bool-cases,
}
use athera.Prelude.Result.{ok, err}
use athera.Prelude.BTreeMap.{get, insert, insert_same}
use athera.IdAlloc.Id.{out_of_range, already_allocated, already_free}
use athera.IdAlloc.Ranges.Spec.{is_free}
use athera.IdAlloc.Flat
use athera.IdAlloc.Flat.{FlatAlloc, Outcome, panic, returns, Status}
use athera.IdAlloc.Flat.Ops.{alloc_at-Takes, alloc_at_busy, dealloc-Gives, dealloc_free}
use athera.IdAlloc.Flat.Valid.{is_used}
use athera.IdAlloc.Major.{IdAlloc, MajorSlot, alloc_at, dealloc, on_flat, on_slot}
use athera.IdAlloc.Major.Blocks.{base_of}
use athera.IdAlloc.Major.Valid.{
  owned, no_major, IsValid, vacant, vacant_flat, vacant_slot, token_lem, slot_holds,
}
use athera.IdAlloc.Major.Ids.{
  Assigns, Releases, flat_Assigns, flat_Releases, slot_Assigns, slot_Releases,
}

-- The answers of `alloc_at`.
pub data AllocAt (w n : ℕ) (a : IdAlloc) (id : ℕ) : Outcome (IdAlloc × Status) → Type 0 where
  outside : Flat.contains a.flat id ≡ false → AllocAt w n a id (returns (a, err out_of_range))
  busy :
      Flat.contains a.flat id ≡ true
      → vacant n a id ≡ false
      → AllocAt w n a id (returns (a, err already_allocated))
  done : (a' : IdAlloc) → Assigns w n a id a' → AllocAt w n a id (returns (a', ok tt))

-- The answers of `dealloc`.
pub data Dealloc (w n : ℕ) (a : IdAlloc) (id : ℕ) : Outcome (IdAlloc × Status) → Type 0 where
  outside : Flat.contains a.flat id ≡ false → Dealloc w n a id (returns (a, err out_of_range))
  idle :
      Flat.contains a.flat id ≡ true
      → vacant n a id ≡ true
      → Dealloc w n a id (returns (a, err already_free))
  done : (a' : IdAlloc) → Releases w n a id a' → Dealloc w n a id (returns (a', ok tt))

-- A slot written back as it was.
on_slot_same :
    (a : IdAlloc) (base : ℕ) (s : MajorSlot) (r : Status)
    → athera.Prelude.BTreeMap.IsOrdered 0 a.majors
    → get base a.majors ≡ some s
    → on_slot a base (returns (s.inner, r)) ≡ returns (a, r)
unfolding on_slot
on_slot_same a base s r o e =
    ap (λ m. returns (record a { majors = m }, r)) (insert_same 0 base s a.majors o e)

module _ (w n : ℕ) (lt : n < w) (narrow : w < 127) (a : IdAlloc) (v : IsValid w n a) (id : ℕ) where
  routed_flat :
      Flat.contains a.flat id ≡ true
      → get (base_of n id) a.majors ≡ none
      → alloc_at w n a id ≡ on_flat a (Flat.alloc_at w a.flat id)
  unfolding alloc_at
  routed_flat inside e = rw (inside, token_lem w n lt narrow a id v inside, e)

  routed_slot :
      (s : MajorSlot)
      → get (base_of n id) a.majors ≡ some s
      → alloc_at w n a id ≡ on_slot a (base_of n id) (Flat.alloc_at w s.inner id)
  unfolding alloc_at
  routed_slot s e =
      let inside = (slot_holds w n lt narrow a id s v e).0 in
      let token = token_lem w n lt narrow a id v inside in
      rw (inside, token, e) (ap (λ b. on_slot a b (Flat.alloc_at w s.inner id)) token)

  alloc_at_flat :
      Flat.contains a.flat id ≡ true
      → get (base_of n id) a.majors ≡ none
      → AllocAt w n a id (alloc_at w n a id)
  unfolding on_flat
  alloc_at_flat inside e = elim (Bool-cases (is_free id a.flat.ranges)) [
    | inl free ↦
        let (f, run, t) = alloc_at-Takes w (owned n a.majors) a.flat v.flat id free in
        rw (routed_flat inside e, run) (done _ (flat_Assigns w n a v id f t))
    | inr taken ↦
        rw (routed_flat inside e, alloc_at_busy w (owned n a.majors) a.flat v.flat id inside taken)
          (busy inside (vacant_flat n id a e ∙ taken))
  ]

  alloc_at_slot :
      (s : MajorSlot) → get (base_of n id) a.majors ≡ some s → AllocAt w n a id (alloc_at w n a id)
  unfolding on_slot
  alloc_at_slot s e =
      let valid = (v.slots (base_of n id) s e).inner in
      let inside = slot_holds w n lt narrow a id s v e in
      elim (Bool-cases (is_free id s.inner.ranges)) [
        | inl free ↦
            let (f, run, t) = alloc_at-Takes w no_major s.inner valid id free in
            rw (routed_slot s e, run) (done _ (slot_Assigns w n a v (base_of n id) s e f id refl t))
        | inr taken ↦
            rw
              (
                routed_slot s e,
                alloc_at_busy w no_major s.inner valid id inside.1 taken,
                on_slot_same a (base_of n id) s _ v.ordered e,
              )
              (busy inside.0 (vacant_slot n id a s e ∙ taken))
      ]

  -- On a valid allocator (`n < w < 127`), `alloc_at` answers `OutOfRange` for an ID outside the
  -- range and `AlreadyAllocated` for one inside that is not vacant, both with the state unchanged.
  -- Otherwise it gives out the ID: it was vacant, it alone is not vacant any more, and the state is
  -- valid.
  pub alloc_at-AllocAt : AllocAt w n a id (alloc_at w n a id)
  alloc_at-AllocAt = elim (Option-cases (get (base_of n id) a.majors)) [
    | inr (s, e) ↦ alloc_at_slot s e
    | inl e ↦ elim (Bool-cases (Flat.contains a.flat id)) [
      | inl inside ↦ alloc_at_flat inside e
      | inr out ↦ unfold alloc_at in rw out (outside out)
    ]
  ]

  released_flat :
      Flat.contains a.flat id ≡ true
      → get (base_of n id) a.majors ≡ none
      → dealloc w n a id ≡ on_flat a (Flat.dealloc w a.flat id)
  unfolding dealloc
  released_flat inside e = rw (inside, token_lem w n lt narrow a id v inside, e)

  released_slot :
      (s : MajorSlot)
      → get (base_of n id) a.majors ≡ some s
      → dealloc w n a id ≡ on_slot a (base_of n id) (Flat.dealloc w s.inner id)
  unfolding dealloc
  released_slot s e =
      let inside = (slot_holds w n lt narrow a id s v e).0 in
      let token = token_lem w n lt narrow a id v inside in
      rw (inside, token, e) (ap (λ b. on_slot a b (Flat.dealloc w s.inner id)) token)

  flat_used :
      Flat.contains a.flat id ≡ true
      → get (base_of n id) a.majors ≡ none
      → is_free id a.flat.ranges ≡ false
      → (id < a.flat.end) × (is_used (owned n a.majors) a.flat.start a.flat.ranges id ≡ true)
  unfolding Flat.contains
  flat_used inside e taken = (ground arith, rw (e, taken) (ground arith))

  dealloc_flat :
      Flat.contains a.flat id ≡ true
      → get (base_of n id) a.majors ≡ none
      → Dealloc w n a id (dealloc w n a id)
  unfolding on_flat
  dealloc_flat inside e = elim (Bool-cases (is_free id a.flat.ranges)) [
    | inl free ↦
        rw (released_flat inside e, dealloc_free w (owned n a.majors) a.flat v.flat id free)
          (idle inside (vacant_flat n id a e ∙ free))
    | inr taken ↦
        let (below, used) = flat_used inside e taken in
        let (f, run, t) = dealloc-Gives w (owned n a.majors) a.flat v.flat id below used in
        rw (released_flat inside e, run) (done _ (flat_Releases w n a v id f e t))
  ]

  slot_used :
      (f : FlatAlloc)
      → Flat.contains f id ≡ true
      → is_free id f.ranges ≡ false
      → (id < f.end) × (is_used no_major f.start f.ranges id ≡ true)
  unfolding Flat.contains
  slot_used f inside taken = (ground arith, ground arith)

  dealloc_slot :
      (s : MajorSlot) → get (base_of n id) a.majors ≡ some s → Dealloc w n a id (dealloc w n a id)
  unfolding on_slot
  dealloc_slot s e =
      let valid = (v.slots (base_of n id) s e).inner in
      let inside = slot_holds w n lt narrow a id s v e in
      elim (Bool-cases (is_free id s.inner.ranges)) [
        | inl free ↦
            rw
              (
                released_slot s e,
                dealloc_free w no_major s.inner valid id free,
                on_slot_same a (base_of n id) s (err already_free) v.ordered e,
              )
              (idle inside.0 (vacant_slot n id a s e ∙ free))
        | inr taken ↦
            let (below, used) = slot_used s.inner inside.1 taken in
            let (f, run, t) = dealloc-Gives w no_major s.inner valid id below used in
            rw (released_slot s e, run)
              (done _ (slot_Releases w n a v (base_of n id) s e f id refl t))
      ]

  -- On a valid allocator (`n < w < 127`), `dealloc` answers `OutOfRange` for an ID outside the range
  -- and `AlreadyFree` for one inside that is vacant, both with the state unchanged. Otherwise it
  -- takes back the ID: it was not vacant, it alone becomes vacant, and the state is valid.
  pub dealloc-Dealloc : Dealloc w n a id (dealloc w n a id)
  dealloc-Dealloc = elim (Option-cases (get (base_of n id) a.majors)) [
    | inr (s, e) ↦ dealloc_slot s e
    | inl e ↦ elim (Bool-cases (Flat.contains a.flat id)) [
      | inl inside ↦ dealloc_flat inside e
      | inr out ↦ unfold dealloc in rw out (outside out)
    ]
  ]
