-- ===== src/IdAlloc/Major/Valid.antt =====
-- The invariant of `IdAlloc`, the view of its state as "which numbers are vacant" and "which lie in
-- a major", and the two ways in which a method changes the parts.
use mathlib.Core.Path.{fun_ext}
use athera.Prelude.{
  ℕ, suc, ◌+◌, ◌%◌, ◌^◌, ◌≤◌, ◌<◌, ◌≡◌, sym, ap, subst, ◌∙◌, Option, none, some, Bool, true, false,
  not, ◌&&◌, ◌==◌, if◌then◌else◌, arith, inl, inr, Option-cases, Bool-cases,
}
use athera.Prelude.BTreeMap.{
  BTreeMap, empty, entry, get, insert, IsOrdered, get-insert, insert-IsOrdered, get_below,
}
use athera.Prelude.Bits.{pow-pos}
use athera.IdAlloc.Ranges.Spec.{is_free}
use athera.IdAlloc.Flat
use athera.IdAlloc.Flat.{FlatAlloc}
use athera.IdAlloc.Flat.Ops.{is_allocated_lem}
use athera.IdAlloc.Flat.Valid
use athera.IdAlloc.Major.{IdAlloc, MajorSlot, is_allocated, token_base, sum_used}
use athera.IdAlloc.Major.Blocks.{base_of, token_base_lem}

abbrev pub is_some {ℓ} : {A : Type ℓ} → Option A → Bool
is_some none = false
is_some (some a) = true

-- Whether `i` lies in a major.
abbrev pub owned : ℕ → BTreeMap MajorSlot → ℕ → Bool
owned n m i = is_some (get (base_of n i) m)

abbrev pub no_major : ℕ → Bool
no_major i = false

-- The slot of the block that starts at `base`.
pub record IsSlot (w n : ℕ) (start end base : ℕ) (s : MajorSlot) : Type 0 where
  pub aligned : base % 2 ^ n ≡ 0
  pub above : start ≤ base
  pub below : base + 2 ^ n ≤ end
  pub first : s.inner.start ≡ base
  pub last : s.inner.end ≡ base + 2 ^ n
  pub inner : Valid.IsValid w no_major s.inner

pub record IsValid (w n : ℕ) (a : IdAlloc) : Type 0 where
  pub flat : Valid.IsValid w (owned n a.majors) a.flat
  pub ordered : IsOrdered 0 a.majors
  pub slots :
      (base : ℕ) (s : MajorSlot)
      → get base a.majors ≡ some s
      → IsSlot w n a.flat.start a.flat.end base s

-- Whether `i` can be given out: free in its major, or in the flat space where it has none.
unfoldable pub vacant : ℕ → IdAlloc → ℕ → Bool
vacant n a i = elim (get (base_of n i) a.majors) [
  | none ↦ is_free i a.flat.ranges
  | some s ↦ is_free i s.inner.ranges
]

pub vacant_flat :
    (n i : ℕ) (a : IdAlloc)
    → get (base_of n i) a.majors ≡ none
    → vacant n a i ≡ is_free i a.flat.ranges
unfolding vacant
vacant_flat n i a e = rw (e, vacant)

pub vacant_slot :
    (n i : ℕ) (a : IdAlloc) (s : MajorSlot)
    → get (base_of n i) a.majors ≡ some s
    → vacant n a i ≡ is_free i s.inner.ranges
unfolding vacant
vacant_slot n i a s e = rw (e, vacant)

module _ (w n : ℕ) (lt : n < w) (narrow : w < 127) where
  pub token_lem :
      (a : IdAlloc) (id : ℕ)
      → IsValid w n a
      → Flat.contains a.flat id ≡ true
      → token_base w n id ≡ base_of n id
  unfolding Flat.contains
  token_lem a id v h = token_base_lem w n lt narrow id (ground (arith, v.flat.fits))

  pub slot_holds :
      (a : IdAlloc) (id : ℕ) (s : MajorSlot)
      → IsValid w n a
      → get (base_of n id) a.majors ≡ some s
      → (Flat.contains a.flat id ≡ true) × (Flat.contains s.inner id ≡ true)
  unfolding Flat.contains
  slot_holds a id s v e = let slot = v.slots (base_of n id) s e in ground (arith, slot, pow-pos n)

  -- On a valid allocator (`n < w < 127`), `is_allocated`, which routes by the bits of the ID and walks
  -- the table, answers true exactly for the IDs in the range that are not vacant.
  is_allocated-vacant :
      (a : IdAlloc) (id : ℕ)
      → IsValid w n a
      → is_allocated w n a id ≡ (Flat.contains a.flat id && not (vacant n a id))
  unfolding is_allocated
  is_allocated-vacant a id v = elim (Bool-cases (Flat.contains a.flat id)) [
    | inr out ↦ ground arith
    | inl inside ↦
        let base = token_lem a id v inside in
        elim (Option-cases (get (base_of n id) a.majors)) [
          | inl e ↦
              let at_flat = is_allocated_lem w (owned n a.majors) a.flat v.flat id in
              rw (inside, base, e, at_flat, vacant_flat n id a e, inside)
          | inr (s, e) ↦
              let in_slot =
                is_allocated_lem w no_major s.inner (v.slots (base_of n id) s e).inner id in
              rw (inside, base, e, in_slot, vacant_slot n id a s e, (slot_holds a id s v e).1)
        ]
  ]

-- What is free in the flat space lies in no major.
pub flat_unowned :
    (w n id : ℕ) (a : IdAlloc)
    → IsValid w n a
    → is_free id a.flat.ranges ≡ true
    → get (base_of n id) a.majors ≡ none
flat_unowned w n id a v h = elim (Option-cases (get (base_of n id) a.majors)) [
  | inl e ↦ e
  | inr (s, e) ↦ absurd (ground (arith, v.flat.apart id))
]

-- The reserved numbers matter only pointwise.
pub IsValid-congr :
    (w : ℕ) (r r' : ℕ → Bool) (f : FlatAlloc)
    → ((i : ℕ) → r i ≡ r' i)
    → Valid.IsValid w r f
    → Valid.IsValid w r' f
IsValid-congr w r r' f h v = subst (λ x. Valid.IsValid w x f) (fun_ext h) v

pub sum_used-insert :
    (lo base : ℕ) (s s' : MajorSlot) (m : BTreeMap MajorSlot)
    → IsOrdered lo m
    → get base m ≡ some s
    → sum_used (insert base s' m) + s.inner.inuse ≡ sum_used m + s'.inner.inuse
unfolding sum_used get insert
sum_used-insert lo base s s' empty o h = absurd (ground arith)
sum_used-insert lo base s s' (entry j u m) o h =
    ground (arith, sum_used-insert (suc j) base s s' m, get_below (suc j) base m)

module _ (w n : ℕ) (a : IdAlloc) (v : IsValid w n a) (base : ℕ) (s s' : MajorSlot)
    (e : get base a.majors ≡ some s) where
  -- A slot changes in place.
  pub replaced-owned : (i : ℕ) → owned n (insert base s' a.majors) i ≡ owned n a.majors i
  replaced-owned i = elim (Bool-cases (base == base_of n i)) [
    | inl h ↦
        let q : base ≡ base_of n i = ground arith in
        let old : get (base_of n i) a.majors ≡ some s = ap (λ b. get b a.majors) (sym q) ∙ e in
        rw (get-insert base (base_of n i) s' a.majors, h, old)
    | inr h ↦ rw (get-insert base (base_of n i) s' a.majors, h)
  ]

  pub replace-IsValid :
      IsSlot w n a.flat.start a.flat.end base s'
      → IsValid w n (record a { majors = insert base s' a.majors })
  replace-IsValid slot = record {
    flat =
        IsValid-congr w (owned n a.majors) (owned n (insert base s' a.majors)) a.flat
          (λ i. sym (replaced-owned i)) v.flat;
    ordered = insert-IsOrdered 0 base s' a.majors (omega arith) v.ordered;
    slots = λ b t h. elim (Bool-cases (base == b)) [
      | inl same ↦
          let q : base ≡ b = ground arith in
          let found : some s' ≡ some t = rw (get-insert base b s' a.majors, same) at h in
          let st : s' ≡ t = ground (arith) in
          subst (λ x. IsSlot w n a.flat.start a.flat.end x t) q
            (subst (λ x. IsSlot w n a.flat.start a.flat.end base x) st slot)
      | inr other ↦ v.slots b t (rw (get-insert base b s' a.majors, other) at h)
    ];
  }

  pub vacant-replace :
      (i : ℕ)
      → vacant n (record a { majors = insert base s' a.majors }) i
        ≡ (if base == base_of n i then is_free i s'.inner.ranges else vacant n a i)
  unfolding vacant
  vacant-replace i = elim (Bool-cases (base == base_of n i)) [
    | inl h ↦ rw (get-insert base (base_of n i) s' a.majors, h, vacant)
    | inr h ↦ rw (get-insert base (base_of n i) s' a.majors, h, vacant)
  ]
