-- ===== src/IdAlloc/Flat/Valid.antt =====
-- The invariant of `FlatAlloc`: the table is well formed, and `inuse` counts the numbers of the
-- range that are neither free nor reserved for a major.
use athera.Prelude.{
  ℕ, ◌+◌, ◌-◌, ◌≤◌, ◌<◌, ◌≡◌, refl, ◌∙◌, Bool, true, false, not, ◌&&◌, ◌||◌, leb, ◌==◌, arith,
}
use athera.Prelude.Count.{count, count_insert}
use athera.Prelude.BTreeMap.{empty, entry}
use athera.IdAlloc.Id.{id_max}
use athera.IdAlloc.Ranges.{Ranges}
use athera.IdAlloc.Ranges.Spec.{is_free, IsRanges, IsClear, IsClear_lem}
use athera.IdAlloc.Ranges.Cut.{cut, holds, cut-IsRanges, is_free-cut}
use athera.IdAlloc.Ranges.Join.{join, join-IsRanges, is_free-join}
use athera.IdAlloc.Flat.{FlatAlloc}

-- Neither free nor reserved: given out as a single number.
abbrev pub is_used : (ℕ → Bool) → ℕ → Ranges → ℕ → Bool
is_used reserved start m i = leb start i && (not (is_free i m) && not (reserved i))

pub record IsValid (w : ℕ) (reserved : ℕ → Bool) (f : FlatAlloc) : Type 0 where
  pub fits : f.end ≤ id_max w
  pub formed : IsRanges f.start f.end f.ranges
  pub counted : f.inuse ≡ count (is_used reserved f.start f.ranges) f.end
  pub apart : (i : ℕ) → reserved i ≡ true → is_free i f.ranges ≡ false

pub holds_one : (a : ℕ) (m : Ranges) → holds a (a + 1) m ≡ is_free a m
unfolding holds is_free
holds_one a empty = refl
holds_one a (entry s e m) = ground (arith, holds_one a m)

pub is_free_bounds :
    (lo hi i : ℕ) (m : Ranges) → IsRanges lo hi m → is_free i m ≡ true → (lo ≤ i) × (i < hi)
unfolding is_free
is_free_bounds lo hi i empty r h = ground arith
is_free_bounds lo hi i (entry s e m) r h = ground (arith, is_free_bounds (e + 1) hi i m r.3)

-- One free number is given out.
pub record Takes (w : ℕ) (reserved : ℕ → Bool) (f : FlatAlloc) (id : ℕ) (f' : FlatAlloc)
    : Type 0 where
  pub valid : IsValid w reserved f'
  pub start_kept : f'.start ≡ f.start
  pub end_kept : f'.end ≡ f.end
  pub was_free : is_free id f.ranges ≡ true
  pub inuse : f'.inuse ≡ f.inuse + 1
  pub frees : (i : ℕ) → is_free i f'.ranges ≡ (is_free i f.ranges && not (i == id))

pub take-Takes :
    (w : ℕ) (reserved : ℕ → Bool) (f : FlatAlloc) (id : ℕ)
    → IsValid w reserved f
    → is_free id f.ranges ≡ true
    → Takes w reserved f id (record f { ranges = cut id (id + 1) f.ranges; inuse = f.inuse + 1 })
take-Takes w reserved f id v h = record {
  valid = record {
    fits = v.fits;
    formed = cut-IsRanges f.start f.end id (id + 1) f.ranges v.formed (omega arith);
    counted = omega (
      arith,
      v.counted,
      count_insert (is_used reserved f.start f.ranges)
          (is_used reserved f.start (cut id (id + 1) f.ranges)) f.end id bounds.1 (ground arith)
          (ground (arith, bounds, frees id, v.apart id)) (λ i n. ground (arith, frees i)),
    );
    apart = λ i r. ground (arith, frees i, v.apart i r);
  };
  start_kept = refl;
  end_kept = refl;
  was_free = h;
  inuse = refl;
  frees = frees;
}
  where
    bounds : (f.start ≤ id) × (id < f.end)
    bounds = is_free_bounds f.start f.end id f.ranges v.formed h

    frees : (i : ℕ) → is_free i (cut id (id + 1) f.ranges) ≡ (is_free i f.ranges && not (i == id))
    frees i =
        is_free-cut f.start f.end id (id + 1) i f.ranges v.formed (omega arith)
          (holds_one id f.ranges ∙ h)
        ∙ ground arith

-- One number comes back.
pub record Gives (w : ℕ) (reserved : ℕ → Bool) (f : FlatAlloc) (id : ℕ) (f' : FlatAlloc)
    : Type 0 where
  pub valid : IsValid w reserved f'
  pub start_kept : f'.start ≡ f.start
  pub end_kept : f'.end ≡ f.end
  pub was_used : is_used reserved f.start f.ranges id ≡ true
  pub inuse : f'.inuse + 1 ≡ f.inuse
  pub frees : (i : ℕ) → is_free i f'.ranges ≡ (is_free i f.ranges || (i == id))

pub give-Gives :
    (w : ℕ) (reserved : ℕ → Bool) (f : FlatAlloc) (id : ℕ)
    → IsValid w reserved f
    → id < f.end
    → is_used reserved f.start f.ranges id ≡ true
    → (0 < f.inuse)
      × Gives w reserved f id (record f { ranges = join id (id + 1) f.ranges; inuse = f.inuse - 1 })
give-Gives w reserved f id v l h = (
  positive,
  record {
    valid = record {
      fits = v.fits;
      formed =
          join-IsRanges f.start f.end id (id + 1) f.ranges v.formed (ground arith) (omega arith)
            (omega arith) clear;
      counted = omega (arith, v.counted, change);
      apart = λ i r. ground (arith, frees i, v.apart i r);
    };
    start_kept = refl;
    end_kept = refl;
    was_used = h;
    inuse = omega (arith, positive);
    frees = frees;
  },
)
  where
    clear : IsClear id (id + 1) f.ranges
    clear =
        IsClear_lem f.start f.end id (id + 1) f.ranges v.formed (omega arith)
          (λ i p q. let e : i ≡ id = omega arith in rw e (ground arith))

    frees : (i : ℕ) → is_free i (join id (id + 1) f.ranges) ≡ (is_free i f.ranges || (i == id))
    frees i =
        is_free-join f.start f.end id (id + 1) i f.ranges v.formed (omega arith) clear
        ∙ ground arith

    change :
        count (is_used reserved f.start f.ranges) f.end
        ≡ count (is_used reserved f.start (join id (id + 1) f.ranges)) f.end + 1
    change =
        count_insert (is_used reserved f.start (join id (id + 1) f.ranges))
          (is_used reserved f.start f.ranges) f.end id l (ground (arith, frees id)) h
          (λ i n. ground (arith, frees i))

    positive : 0 < f.inuse
    positive = omega (arith, v.counted, change)
