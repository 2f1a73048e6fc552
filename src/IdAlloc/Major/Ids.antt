-- ===== src/IdAlloc/Major/Ids.antt =====
-- Single IDs: `alloc_at`, `dealloc`, `alloc` and `alloc_minor` as changes of the vacant numbers.
use athera.Prelude.{
  ℕ, ◌+◌, ◌≡◌, ◌≢◌, refl, sym, ap, ◌∙◌, none, some, Bool, true, false, not, ◌&&◌, ◌||◌, ◌==◌, arith,
  inl, inr, Option-cases, Bool-cases,
}
use athera.Prelude.BTreeMap.{get, insert}
use athera.IdAlloc.Ranges.Spec.{is_free}
use athera.IdAlloc.Flat.{FlatAlloc}
use athera.IdAlloc.Flat.Valid.{Takes, Gives}
use athera.IdAlloc.Flat.Valid
use athera.IdAlloc.Major.{IdAlloc, MajorSlot, used}
use athera.IdAlloc.Major.Blocks.{base_of}
use athera.IdAlloc.Major.Valid.{
  owned, no_major, IsSlot, IsValid, vacant, vacant_flat, vacant_slot, flat_unowned, sum_used-insert,
  replace-IsValid, vacant-replace, replaced-owned,
}

-- `id` is given out: it was vacant, nothing else changes, and the total of used IDs grows by one.
pub record Assigns (w n : ℕ) (a : IdAlloc) (id : ℕ) (a' : IdAlloc) : Type 0 where
  pub valid : IsValid w n a'
  pub start_kept : a'.flat.start ≡ a.flat.start
  pub end_kept : a'.flat.end ≡ a.flat.end
  pub was_vacant : vacant n a id ≡ true
  pub total : used a' ≡ used a + 1
  pub vacancy : (i : ℕ) → vacant n a' i ≡ (vacant n a i && not (i == id))
  majors_kept : (i : ℕ) → owned n a'.majors i ≡ owned n a.majors i

-- `id` comes back.
pub record Releases (w n : ℕ) (a : IdAlloc) (id : ℕ) (a' : IdAlloc) : Type 0 where
  pub valid : IsValid w n a'
  pub start_kept : a'.flat.start ≡ a.flat.start
  pub end_kept : a'.flat.end ≡ a.flat.end
  pub was_used : vacant n a id ≡ false
  pub total : used a' + 1 ≡ used a
  pub vacancy : (i : ℕ) → vacant n a' i ≡ (vacant n a i || (i == id))
  majors_kept : (i : ℕ) → owned n a'.majors i ≡ owned n a.majors i

module _ (w n : ℕ) (a : IdAlloc) (v : IsValid w n a) where
  flat_vacancy :
      (f' : FlatAlloc) (b : ℕ → Bool → Bool) (id : ℕ)
      → get (base_of n id) a.majors ≡ none
      → ((i : ℕ) → is_free i f'.ranges ≡ b i (is_free i a.flat.ranges))
      → ((i : ℕ) (x : Bool) → i ≢ id → b i x ≡ x)
      → (i : ℕ) → vacant n (record a { flat = f' }) i ≡ b i (vacant n a i)
  flat_vacancy f' b id out frees other i = elim (Option-cases (get (base_of n i) a.majors)) [
    | inl e ↦ rw (vacant_flat n i (record a { flat = f' }) e, vacant_flat n i a e) (frees i)
    | inr (s, e) ↦
        let apart : i ≢ id = λ q. ground (arith, ap (λ x. get (base_of n x) a.majors) q) in
        rw (vacant_slot n i (record a { flat = f' }) s e, vacant_slot n i a s e)
          (sym (other i (is_free i s.inner.ranges) apart))
  ]

  pub flat_Assigns :
      (id : ℕ) (f' : FlatAlloc)
      → Takes w (owned n a.majors) a.flat id f'
      → Assigns w n a id (record a { flat = f' })
  unfolding used
  flat_Assigns id f' t = record {
    valid = record {
      flat = t.valid;
      ordered = v.ordered;
      slots = λ b s e. rw (t.start_kept, t.end_kept) (v.slots b s e);
    };
    start_kept = t.start_kept;
    end_kept = t.end_kept;
    was_vacant = vacant_flat n id a out ∙ t.was_free;
    total = omega (arith, t.inuse);
    vacancy = flat_vacancy f' (λ i x. x && not (i == id)) id out t.frees (λ i x q. ground arith);
    majors_kept = λ i. refl;
  }
    where
      out : get (base_of n id) a.majors ≡ none
      out = flat_unowned w n id a v t.was_free

  pub flat_Releases :
      (id : ℕ) (f' : FlatAlloc)
      → get (base_of n id) a.majors ≡ none
      → Gives w (owned n a.majors) a.flat id f'
      → Releases w n a id (record a { flat = f' })
  unfolding used
  flat_Releases id f' out t = record {
    valid = record {
      flat = t.valid;
      ordered = v.ordered;
      slots = λ b s e. rw (t.start_kept, t.end_kept) (v.slots b s e);
    };
    start_kept = t.start_kept;
    end_kept = t.end_kept;
    was_used = vacant_flat n id a out ∙ ground (arith, t.was_used);
    total = omega (arith, t.inuse);
    vacancy = flat_vacancy f' (λ i x. x || (i == id)) id out t.frees (λ i x q. ground arith);
    majors_kept = λ i. refl;
  }

  -- The same for a slot. `base` is the base of the block of `id`.
  module _ (base : ℕ) (s : MajorSlot) (e : get base a.majors ≡ some s) (f' : FlatAlloc) where
    abbrev pub with_slot : IdAlloc
    with_slot = record a { majors = insert base (record { inner = f' }) a.majors }

    slot_vacancy :
        (b : ℕ → Bool → Bool) (id : ℕ)
        → base_of n id ≡ base
        → ((i : ℕ) → is_free i f'.ranges ≡ b i (is_free i s.inner.ranges))
        → ((i : ℕ) (x : Bool) → i ≢ id → b i x ≡ x)
        → (i : ℕ) → vacant n with_slot i ≡ b i (vacant n a i)
    slot_vacancy b id q frees other i =
        vacant-replace w n a v base s (record { inner = f' }) e i
        ∙ elim (Bool-cases (base == base_of n i)) [
          | inl h ↦
              let same : base ≡ base_of n i = ground arith in
              let here : get (base_of n i) a.majors ≡ some s =
                ap (λ x. get x a.majors) (sym same) ∙ e in
              rw (h, vacant_slot n i a s here) (frees i)
          | inr h ↦
              let apart : i ≢ id = λ r. ground (arith, ap (base_of n) r) in
              rw h (sym (other i (vacant n a i) apart))
        ]

    slot_IsSlot :
        f'.start ≡ s.inner.start
        → f'.end ≡ s.inner.end
        → Valid.IsValid w no_major f'
        → IsSlot w n a.flat.start a.flat.end base (record { inner = f' })
    slot_IsSlot p q u =
        let old = v.slots base s e in
        record {
          aligned = old.aligned;
          above = old.above;
          below = old.below;
          first = p ∙ old.first;
          last = q ∙ old.last;
          inner = u;
        }

    pub slot_Assigns :
        (id : ℕ) → base_of n id ≡ base → Takes w no_major s.inner id f' → Assigns w n a id with_slot
    unfolding used
    slot_Assigns id q t = record {
      valid =
          replace-IsValid w n a v base s (record { inner = f' }) e
            (slot_IsSlot t.start_kept t.end_kept t.valid);
      start_kept = refl;
      end_kept = refl;
      was_vacant = vacant_slot n id a s (rw q e) ∙ t.was_free;
      total =
          omega
            (arith, t.inuse, sum_used-insert 0 base s (record { inner = f' }) a.majors v.ordered e);
      vacancy = slot_vacancy (λ i x. x && not (i == id)) id q t.frees (λ i x q. ground arith);
      majors_kept = replaced-owned w n a v base s (record { inner = f' }) e;
    }

    pub slot_Releases :
        (id : ℕ)
        → base_of n id ≡ base
        → Gives w no_major s.inner id f'
        → Releases w n a id with_slot
    unfolding used
    slot_Releases id q t = record {
      valid =
          replace-IsValid w n a v base s (record { inner = f' }) e
            (slot_IsSlot t.start_kept t.end_kept t.valid);
      start_kept = refl;
      end_kept = refl;
      was_used = vacant_slot n id a s (rw q e) ∙ ground (arith, t.was_used);
      total =
          omega
            (arith, t.inuse, sum_used-insert 0 base s (record { inner = f' }) a.majors v.ordered e);
      vacancy = slot_vacancy (λ i x. x || (i == id)) id q t.frees (λ i x q. ground arith);
      majors_kept = replaced-owned w n a v base s (record { inner = f' }) e;
    }
