-- ===== src/IdAlloc/Flat/Blocks.antt =====
-- `carve` and `return_range`: a whole block leaves the table for a major, and comes back.
use athera.Prelude.{
  ℕ, suc, ◌≤◌, ◌<◌, ◌≡◌, refl, ◌∙◌, Bool, true, false, not, ◌&&◌, ◌||◌, ltb, leb, arith, inl, inr,
  Option-cases,
}
use athera.Prelude.Count.{count_congr}
use athera.Prelude.Result.{ok, err}
use athera.Prelude.BTreeMap.{last_below}
use athera.IdAlloc.Id.{range_busy}
use athera.IdAlloc.Ranges.Spec.{is_free, IsClear, IsClear_lem}
use athera.IdAlloc.Ranges.Cut.{
  cut, holds, split-eq-cut, holds-last_below, holds-none, cut-IsRanges, is_free-cut, free_of_holds,
}
use athera.IdAlloc.Ranges.Join.{join, give_back-eq-join, join-IsRanges, is_free-join}
use athera.IdAlloc.Flat.{FlatAlloc, carve, return_range}
use athera.IdAlloc.Flat.Valid.{is_used, IsValid}

abbrev pub within : ℕ → ℕ → ℕ → Bool
within a b i = leb a i && ltb i b

-- `f'` is `f` without the free block `[a, b)`, which becomes reserved.
pub record Carves (w : ℕ) (reserved : ℕ → Bool) (f : FlatAlloc) (a b : ℕ) (f' : FlatAlloc)
    : Type 0 where
  pub valid : IsValid w (λ i. reserved i || within a b i) f'
  pub start_kept : f'.start ≡ f.start
  pub end_kept : f'.end ≡ f.end
  pub inuse : f'.inuse ≡ f.inuse
  pub was_free : (i : ℕ) → within a b i ≡ true → is_free i f.ranges ≡ true
  pub frees : (i : ℕ) → is_free i f'.ranges ≡ (is_free i f.ranges && not (within a b i))

-- `f'` is `f` with the reserved block `[a, b)` free again.
pub record Returns (w : ℕ) (reserved : ℕ → Bool) (f : FlatAlloc) (a b : ℕ) (f' : FlatAlloc)
    : Type 0 where
  pub valid : IsValid w (λ i. reserved i && not (within a b i)) f'
  pub start_kept : f'.start ≡ f.start
  pub end_kept : f'.end ≡ f.end
  pub inuse : f'.inuse ≡ f.inuse
  pub frees : (i : ℕ) → is_free i f'.ranges ≡ (is_free i f.ranges || within a b i)

module _ (w : ℕ) (reserved : ℕ → Bool) (f : FlatAlloc) (v : IsValid w reserved f) (a b : ℕ)
    (lt : a < b) where
  carved-Carves :
      holds a b f.ranges ≡ true → Carves w reserved f a b (record f { ranges = cut a b f.ranges })
  carved-Carves h = record {
    valid = record {
      fits = v.fits;
      formed = cut-IsRanges f.start f.end a b f.ranges v.formed lt;
      counted =
          v.counted
          ∙ count_congr (is_used reserved f.start f.ranges)
              (is_used (λ i. reserved i || within a b i) f.start (cut a b f.ranges)) f.end
              (λ i l. ground (arith, frees i, was_free i));
      apart = λ i r. ground (arith, frees i, v.apart i);
    };
    start_kept = refl;
    end_kept = refl;
    inuse = refl;
    was_free = was_free;
    frees = frees;
  }
    where
      frees : (i : ℕ) → is_free i (cut a b f.ranges) ≡ (is_free i f.ranges && not (within a b i))
      frees i = is_free-cut f.start f.end a b i f.ranges v.formed lt h

      was_free : (i : ℕ) → within a b i ≡ true → is_free i f.ranges ≡ true
      was_free i p = free_of_holds f.start f.end a b i f.ranges h (ground arith) (ground arith)

  pub carve-Carves :
      f.start ≤ a
      → b ≤ f.end
      → holds a b f.ranges ≡ true
      → (f' : FlatAlloc) × (carve f a b ≡ (f', ok tt)) × Carves w reserved f a b f'
  unfolding carve
  carve-Carves p q h = (
    record f { ranges = cut a b f.ranges },
    elim (Option-cases (last_below (suc a) f.ranges)) [
      | inl n ↦ absurd (ground (arith, holds-none f.start f.end a b f.ranges v.formed n))
      | inr ((s, e), n) ↦
          let held = holds-last_below f.start f.end a b s e f.ranges v.formed lt n in
          ground (arith, held, split-eq-cut f.start f.end a b s e f.ranges v.formed lt n)
    ],
    carved-Carves h,
  )

  pub carve_busy :
      f.start ≤ a → b ≤ f.end → holds a b f.ranges ≡ false → carve f a b ≡ (f, err range_busy)
  unfolding carve
  carve_busy p q h = elim (Option-cases (last_below (suc a) f.ranges)) [
    | inl n ↦ ground arith
    | inr ((s, e), n) ↦
        ground (arith, holds-last_below f.start f.end a b s e f.ranges v.formed lt n)
  ]

  pub return_range-Returns :
      f.start ≤ a
      → b ≤ f.end
      → ((i : ℕ) → within a b i ≡ true → reserved i ≡ true)
      → Returns w reserved f a b (return_range f a b)
  unfolding return_range
  return_range-Returns p q h =
      rw (test, give_back-eq-join f.start f.end a b f.ranges v.formed lt clear)
        (record {
          valid = record {
            fits = v.fits;
            formed = join-IsRanges f.start f.end a b f.ranges v.formed p lt q clear;
            counted =
                v.counted
                ∙ count_congr (is_used reserved f.start f.ranges)
                    (is_used (λ i. reserved i && not (within a b i)) f.start (join a b f.ranges))
                    f.end (λ i l. ground (arith, frees i, h i));
            apart = λ i r. ground (arith, frees i, v.apart i);
          };
          start_kept = refl;
          end_kept = refl;
          inuse = refl;
          frees = frees;
        })
    where
      test : leb b a ≡ false
      test = ground arith

      clear : IsClear a b f.ranges
      clear =
          IsClear_lem f.start f.end a b f.ranges v.formed lt
            (λ i p q. v.apart i (h i (ground arith)))

      frees : (i : ℕ) → is_free i (join a b f.ranges) ≡ (is_free i f.ranges || within a b i)
      frees i = is_free-join f.start f.end a b i f.ranges v.formed lt clear
