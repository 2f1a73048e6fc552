-- ===== src/IdAlloc/Major/Dissolve.antt =====
-- `dealloc_major`: a major leaves, whatever was given out in it.
use athera.Prelude.{
  ℕ, ◌+◌, ◌^◌, ◌<◌, ◌≡◌, sym, ap, ◌∙◌, none, some, not, ◌&&◌, ◌||◌, ◌==◌, arith, inl, inr,
  Option-cases, Bool-cases,
}
use athera.Prelude.Result.{ok, err}
use athera.Prelude.Bits.{pow-pos}
use athera.Prelude.BTreeMap.{BTreeMap, empty, entry, get, remove, get-remove, remove-IsOrdered}
use athera.IdAlloc.Id.{major_not_found}
use athera.IdAlloc.Flat
use athera.IdAlloc.Flat.{Status}
use athera.IdAlloc.Flat.Blocks.{within, Returns, return_range-Returns}
use athera.IdAlloc.Major.{IdAlloc, MajorSlot, used, sum_used, dealloc_major}
use athera.IdAlloc.Major.Blocks.{base_of, within_lem, block_end_lem}
use athera.IdAlloc.Major.Valid.{
  is_some, owned, IsSlot, IsValid, IsValid-congr, vacant, vacant_flat, vacant_slot,
}

-- The major at `base` is dissolved: all its numbers are vacant, whatever was given out.
pub record Dissolves (w n : ℕ) (a : IdAlloc) (base : ℕ) (s : MajorSlot) (a' : IdAlloc)
    : Type 0 where
  pub valid : IsValid w n a'
  pub start_kept : a'.flat.start ≡ a.flat.start
  pub end_kept : a'.flat.end ≡ a.flat.end
  was_major : get base a.majors ≡ some s
  pub total : used a' + s.inner.inuse ≡ used a
  pub vacancy : (i : ℕ) → vacant n a' i ≡ (vacant n a i || (base_of n i == base))
  pub majors : (i : ℕ) → owned n a'.majors i ≡ (owned n a.majors i && not (base_of n i == base))

sum_used-remove :
    (base : ℕ) (s : MajorSlot) (m : BTreeMap MajorSlot)
    → get base m ≡ some s
    → sum_used (remove base m) + s.inner.inuse ≡ sum_used m
unfolding sum_used get remove
sum_used-remove base s empty e = absurd (ground arith)
sum_used-remove base s (entry j u m) e = ground (arith, sum_used-remove base s m)

-- The answers of `dealloc_major`.
pub data DeallocMajor (w n : ℕ) (a : IdAlloc) (base : ℕ) : IdAlloc × Status → Type 0 where
  absent : get base a.majors ≡ none → DeallocMajor w n a base (a, err major_not_found)
  done :
      (s : MajorSlot) (a' : IdAlloc)
      → Dissolves w n a base s a'
      → DeallocMajor w n a base (a', ok tt)

module _ (w n : ℕ) (a : IdAlloc) (v : IsValid w n a) (base : ℕ) (s : MajorSlot)
    (e : get base a.majors ≡ some s) where
  slot : IsSlot w n a.flat.start a.flat.end base s
  slot = v.slots base s e

  member : (i : ℕ) → within base (base + 2 ^ n) i ≡ (base_of n i == base)
  member i = within_lem n base i slot.aligned

  found : (i : ℕ) → base_of n i ≡ base → get (base_of n i) a.majors ≡ some s
  found i q = ap (λ b. get b a.majors) q ∙ e

  abbrev without : IdAlloc
  without = record {
    flat = Flat.return_range a.flat base (base + 2 ^ n);
    majors = remove base a.majors;
  }

  given_back : Returns w (owned n a.majors) a.flat base (base + 2 ^ n) without.flat
  given_back =
      return_range-Returns w (owned n a.majors) a.flat v.flat base (base + 2 ^ n)
        (omega (arith, pow-pos n)) slot.above slot.below
        (λ i h. ap is_some (found i (ground (arith, member i))))

  owned-without :
      (i : ℕ) → owned n without.majors i ≡ (owned n a.majors i && not (base_of n i == base))
  owned-without i =
      rw (get-remove 0 base (base_of n i) a.majors v.ordered)
        (elim (Bool-cases (base == base_of n i)) [
          | inl h ↦ rw h (ground arith)
          | inr h ↦ rw h (ground arith)
        ])

  vacant-without : (i : ℕ) → vacant n without i ≡ (vacant n a i || (base_of n i == base))
  vacant-without i = elim (Bool-cases (base == base_of n i)) [
    | inl h ↦
        let gone : get (base_of n i) without.majors ≡ none =
          rw (get-remove 0 base (base_of n i) a.majors v.ordered, h) in
        vacant_flat n i without gone ∙ given_back.frees i ∙ ground (arith, member i)
    | inr h ↦
        let kept : get (base_of n i) without.majors ≡ get (base_of n i) a.majors =
          rw (get-remove 0 base (base_of n i) a.majors v.ordered, h) in
        elim (Option-cases (get (base_of n i) a.majors)) [
          | inl e ↦
              vacant_flat n i without (kept ∙ e)
              ∙ given_back.frees i
              ∙ ground (arith, member i, vacant_flat n i a e)
          | inr (t, e) ↦
              vacant_slot n i without t (kept ∙ e) ∙ ground (arith, vacant_slot n i a t e)
        ]
  ]

  without-Dissolves : Dissolves w n a base s without
  unfolding used
  without-Dissolves = record {
    valid = record {
      flat =
          IsValid-congr w (λ i. owned n a.majors i && not (within base (base + 2 ^ n) i))
            (owned n without.majors) without.flat
            (λ i. ap (λ x. owned n a.majors i && not x) (member i) ∙ sym (owned-without i))
            given_back.valid;
      ordered = remove-IsOrdered 0 base a.majors v.ordered;
      slots = λ b t h. elim (Bool-cases (base == b)) [
        | inl same ↦ absurd (
            let q : none ≡ some t = rw (get-remove 0 base b a.majors v.ordered, same) at h in
            ground arith)
        | inr other ↦
            rw (given_back.start_kept, given_back.end_kept)
              (v.slots b t (rw (get-remove 0 base b a.majors v.ordered, other) at h))
      ];
    };
    start_kept = given_back.start_kept;
    end_kept = given_back.end_kept;
    was_major = e;
    total = omega (arith, given_back.inuse, sum_used-remove base s a.majors e);
    vacancy = vacant-without;
    majors = owned-without;
  }

-- On a valid allocator (`n < w < 127`), `dealloc_major` answers `MajorNotFound` when no major starts
-- at the base, with the state unchanged. Otherwise the major is gone, all its IDs are vacant, no
-- other ID changes, and the state is valid.
pub dealloc_major-DeallocMajor :
    (w n : ℕ)
    → n < w
    → w < 127
    → (a : IdAlloc) → IsValid w n a
    → (base : ℕ) → DeallocMajor w n a base (dealloc_major w n a base)
unfolding dealloc_major
dealloc_major-DeallocMajor w n lt narrow a v base = elim (Option-cases (get base a.majors)) [
  | inl e ↦ rw (e, dealloc_major) (absent e)
  | inr (s, e) ↦
      let end =
        block_end_lem w n lt narrow base (omega (arith, v.flat.fits, (v.slots base s e).below)) in
      rw (e, dealloc_major, end)
        (done s (without w n a v base s e) (without-Dissolves w n a v base s e))
]
