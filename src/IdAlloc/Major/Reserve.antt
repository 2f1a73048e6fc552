-- ===== src/IdAlloc/Major/Reserve.antt =====
-- A block of the flat space becomes a major.
use athera.Prelude.{
  ℕ, ◌+◌, ◌-◌, ◌%◌, ◌^◌, ◌≤◌, ◌<◌, ◌≡◌, refl, sym, ap, subst, ◌∙◌, Option, none, some, Bool, true,
  false, not, ◌&&◌, ◌||◌, ltb, leb, ◌==◌, if◌then◌else◌, arith, inl, inr, Option-cases, Bool-cases,
}
use athera.Prelude.Bits.{pow-pos}
use athera.Prelude.Count.{count_none}
use athera.Prelude.BTreeMap.{
  BTreeMap, empty, entry, get, insert, remove, IsOrdered, get-insert, get-remove, insert-IsOrdered,
  remove-IsOrdered, get_below,
}
use athera.IdAlloc.Id.{id_max}
use athera.IdAlloc.Ranges.Spec.{is_free}
use athera.IdAlloc.Flat
use athera.IdAlloc.Flat.{FlatAlloc}
use athera.IdAlloc.Flat.Blocks.{within, Carves}
use athera.IdAlloc.Flat.Valid
use athera.IdAlloc.Major.{IdAlloc, MajorSlot, used, sum_used}
use athera.IdAlloc.Major.Blocks.{base_of, within_lem}
use athera.IdAlloc.Major.Valid.{
  is_some, owned, no_major, IsSlot, IsValid, IsValid-congr, vacant, vacant_flat, vacant_slot,
  flat_unowned,
}

-- The aligned block at `base` becomes a major: its numbers stay vacant.
pub record Reserves (w n : ℕ) (a : IdAlloc) (base : ℕ) (a' : IdAlloc) : Type 0 where
  pub valid : IsValid w n a'
  pub start_kept : a'.flat.start ≡ a.flat.start
  pub end_kept : a'.flat.end ≡ a.flat.end
  pub aligned : base % 2 ^ n ≡ 0
  pub was_vacant :
      (i : ℕ) → base_of n i ≡ base → (vacant n a i ≡ true) × (owned n a.majors i ≡ false)
  pub total : used a' ≡ used a
  pub vacancy : (i : ℕ) → vacant n a' i ≡ vacant n a i
  pub majors : (i : ℕ) → owned n a'.majors i ≡ (owned n a.majors i || (base_of n i == base))

sum_used-fresh :
    (base : ℕ) (s : MajorSlot) (m : BTreeMap MajorSlot)
    → get base m ≡ none
    → sum_used (insert base s m) ≡ sum_used m + s.inner.inuse
unfolding sum_used get insert
sum_used-fresh base s empty e = omega arith
sum_used-fresh base s (entry j u m) e = ground (arith, sum_used-fresh base s m)

-- A slot as `FlatAlloc::new` makes it.
new-IsValid :
    (w base end : ℕ) → base < end → end ≤ id_max w → Valid.IsValid w no_major (Flat.new base end)
unfolding Flat.new is_free athera.Prelude.BTreeMap.insert
new-IsValid w base end h k = rw test (record {
  fits = k;
  formed = (omega arith, h, omega arith, tt);
  counted =
      sym
        (count_none (Valid.is_used no_major base (entry base end empty)) end (λ i l. ground arith));
  apart = λ i r. ground arith;
})
  where
    test : ltb base end ≡ true
    test = ground arith

is_free-new : (base end i : ℕ) → is_free i (Flat.new base end).ranges ≡ within base end i
unfolding Flat.new is_free athera.Prelude.BTreeMap.insert
is_free-new base end i = ground arith

module _ (w n : ℕ) (a : IdAlloc) (v : IsValid w n a) (base : ℕ) (aligned : base % 2 ^ n ≡ 0) where
  base_self : base_of n base ≡ base
  base_self = omega (arith, aligned)

  member : (i : ℕ) → within base (base + 2 ^ n) i ≡ (base_of n i == base)
  member i = within_lem n base i aligned

  -- The block of `base` has left the flat space `f'`, and `s` is its slot.
  module _ (f' : FlatAlloc) (c : Carves w (owned n a.majors) a.flat base (base + 2 ^ n) f') where
    abbrev fresh_slot : MajorSlot
    fresh_slot = record { inner = Flat.new base (base + 2 ^ n) }

    abbrev with_major : IdAlloc
    with_major = record { flat = f'; majors = insert base fresh_slot a.majors }

    was_free : (i : ℕ) → base_of n i ≡ base → is_free i a.flat.ranges ≡ true
    was_free i q = c.was_free i (member i ∙ ground arith)

    unowned : (i : ℕ) → base_of n i ≡ base → get (base_of n i) a.majors ≡ none
    unowned i q = flat_unowned w n i a v (was_free i q)

    fresh : get base a.majors ≡ none
    fresh = ap (λ b. get b a.majors) (sym base_self) ∙ unowned base base_self

    owned-with :
        (i : ℕ) → owned n with_major.majors i ≡ (owned n a.majors i || (base_of n i == base))
    owned-with i =
        rw (get-insert base (base_of n i) fresh_slot a.majors)
          (elim (Bool-cases (base == base_of n i)) [
            | inl h ↦ rw h (ground arith)
            | inr h ↦ rw h (ground arith)
          ])

    vacant-with : (i : ℕ) → vacant n with_major i ≡ vacant n a i
    vacant-with i = elim (Bool-cases (base == base_of n i)) [
      | inl h ↦
          let same : base_of n i ≡ base = ground arith in
          let found : get (base_of n i) with_major.majors ≡ some fresh_slot =
            rw (get-insert base (base_of n i) fresh_slot a.majors, h) in
          vacant_slot n i with_major fresh_slot found
          ∙ is_free-new base (base + 2 ^ n) i
          ∙ member i
          ∙ ground arith
          ∙ sym (vacant_flat n i a (unowned i same) ∙ was_free i same)
      | inr h ↦
          let kept : get (base_of n i) with_major.majors ≡ get (base_of n i) a.majors =
            rw (get-insert base (base_of n i) fresh_slot a.majors, h) in
          elim (Option-cases (get (base_of n i) a.majors)) [
            | inl e ↦
                vacant_flat n i with_major (kept ∙ e)
                ∙ c.frees i
                ∙ ground (arith, member i)
                ∙ sym (vacant_flat n i a e)
            | inr (s, e) ↦ vacant_slot n i with_major s (kept ∙ e) ∙ sym (vacant_slot n i a s e)
          ]
    ]

    slot_of :
        base + 2 ^ n ≤ a.flat.end
        → a.flat.start ≤ base
        → (b : ℕ) (s : MajorSlot) → get b with_major.majors ≡ some s
        → IsSlot w n f'.start f'.end b s
    slot_of q p b s h = elim (Bool-cases (base == b)) [
      | inl same ↦
          let at : base ≡ b = ground arith in
          let got : some fresh_slot ≡ some s =
            rw (get-insert base b fresh_slot a.majors, same) at h in
          let is : fresh_slot ≡ s = ground arith in
          subst (λ x. IsSlot w n f'.start f'.end x s) at
            (subst (λ x. IsSlot w n f'.start f'.end base x) is
              (record {
                aligned = aligned;
                above = omega (arith, c.start_kept);
                below = omega (arith, c.end_kept);
                first = unfold Flat.new in refl;
                last = unfold Flat.new in refl;
                inner =
                    new-IsValid w base (base + 2 ^ n) (omega (arith, pow-pos n))
                      (omega (arith, v.flat.fits));
              }))
      | inr other ↦
          rw (c.start_kept, c.end_kept)
            (v.slots b s (rw (get-insert base b fresh_slot a.majors, other) at h))
    ]

    pub reserved-Reserves :
        a.flat.start ≤ base → base + 2 ^ n ≤ a.flat.end → Reserves w n a base with_major
    unfolding used Flat.new
    reserved-Reserves p q = record {
      valid = record {
        flat =
            IsValid-congr w (λ i. owned n a.majors i || within base (base + 2 ^ n) i)
              (owned n with_major.majors) f'
              (λ i. ap (λ x. owned n a.majors i || x) (member i) ∙ sym (owned-with i)) c.valid;
        ordered = insert-IsOrdered 0 base fresh_slot a.majors (omega arith) v.ordered;
        slots = slot_of q p;
      };
      start_kept = c.start_kept;
      end_kept = c.end_kept;
      aligned = aligned;
      was_vacant =
          λ i q. (vacant_flat n i a (unowned i q) ∙ was_free i q, ap is_some (unowned i q));
      total = omega (arith, c.inuse, sum_used-fresh base fresh_slot a.majors fresh);
      vacancy = vacant-with;
      majors = owned-with;
    }
