-- ===== src/MemoryMap/Regions.antt =====
-- The search of `mmap` and `mremap` for a free range below the stack.
use athera.Prelude.{
  ℕ, ◌+◌, ◌-◌, ◌≤◌, ◌<◌, ◌≡◌, refl, ◌⊎◌, inl, inr, Option, none, some, true, false, ◌&&◌, List, [],
  ◌∷◌, ltb, leb, arith, Bool-cases,
}
use athera.MemoryMap.{
  UserMapping, range_start, range_end, overlaps, range_is_free, user_stack_lower_bound,
  insert_range, ranges_below, find_below, find_free_region,
}

-- Each mapping holds a byte, and no two of them overlap.
abbrev pub IsMap : List UserMapping → Type 0
IsMap [] = Unit
IsMap (m ∷ ms) =
    (range_start m < range_end m)
    × (range_is_free ms (range_start m) (range_end m) ≡ true)
    × IsMap ms

-- No mapping reaches across the lower end of the stack.
abbrev pub ClearsStack : List UserMapping → Type 0
ClearsStack [] = Unit
ClearsStack (m ∷ ms) =
    ((range_end m ≤ user_stack_lower_bound) ⊎ (user_stack_lower_bound ≤ range_start m))
    × ClearsStack ms

-- `[a, b)` meets none of the ranges.
abbrev pub Avoids : ℕ → ℕ → List (ℕ × ℕ) → Type 0
Avoids a b [] = Unit
Avoids a b (r ∷ rs) = ((r.1 ≤ a) ⊎ (b ≤ r.0)) × Avoids a b rs

-- Ranges from the last to the first, below `top`.
abbrev Descends : ℕ → List (ℕ × ℕ) → Type 0
Descends top [] = Unit
Descends top (r ∷ rs) = (r.1 ≤ top) × (r.0 < r.1) × Descends (r.0) rs

overlaps-false :
    (m : UserMapping) (a b : ℕ) → overlaps m a b ≡ false → (range_end m ≤ a) ⊎ (b ≤ range_start m)
unfolding overlaps
overlaps-false m a b h = ground (arith, h)

pub not_overlaps :
    (m : UserMapping) (a b : ℕ) → (range_end m ≤ a) ⊎ (b ≤ range_start m) → overlaps m a b ≡ false
unfolding overlaps
not_overlaps m a b h = ground (arith, h)

insert_range-Avoids :
    (a b : ℕ) (r : ℕ × ℕ) (rs : List (ℕ × ℕ))
    → (r.1 ≤ a) ⊎ (b ≤ r.0)
    → Avoids a b rs
    → Avoids a b (insert_range r rs)
unfolding insert_range
insert_range-Avoids a b r [] h v = (h, tt)
insert_range-Avoids a b r (q ∷ qs) h v = elim (Bool-cases (ltb (r.0) (q.0))) [
  | inl c ↦ rw c (v.0, insert_range-Avoids a b r qs h (v.1))
  | inr c ↦ rw c (h, v)
]

Avoids-insert_range :
    (a b : ℕ) (r : ℕ × ℕ) (rs : List (ℕ × ℕ))
    → Avoids a b (insert_range r rs)
    → ((r.1 ≤ a) ⊎ (b ≤ r.0)) × Avoids a b rs
unfolding insert_range
Avoids-insert_range a b r [] v = v
Avoids-insert_range a b r (q ∷ qs) v = elim (Bool-cases (ltb (r.0) (q.0))) [
  | inl c ↦
      let w : ((q.1 ≤ a) ⊎ (b ≤ q.0)) × Avoids a b (insert_range r qs) = rw c at v in
      let rest = Avoids-insert_range a b r qs (w.1) in (rest.0, (w.0, rest.1))
  | inr c ↦ let w : ((r.1 ≤ a) ⊎ (b ≤ r.0)) × Avoids a b (q ∷ qs) = rw c at v in w
]

insert_range-Descends :
    (top : ℕ) (r : ℕ × ℕ) (rs : List (ℕ × ℕ))
    → r.0 < r.1
    → r.1 ≤ top
    → Avoids (r.0) (r.1) rs
    → Descends top rs
    → Descends top (insert_range r rs)
unfolding insert_range
insert_range-Descends top r [] n h v d = (h, n, tt)
insert_range-Descends top r (q ∷ qs) n h v d = elim (Bool-cases (ltb (r.0) (q.0))) [
  | inl c ↦
      let lt : r.0 < q.0 = ground (arith, c) in
      let apart : r.1 ≤ q.0 = ground (arith, v.0, d.1) in
      rw c (d.0, d.1, insert_range-Descends (q.0) r qs n apart (v.1) (d.2))
  | inr c ↦
      let le : q.0 ≤ r.0 = ground (arith, c) in
      let apart : q.1 ≤ r.0 = ground (arith, v.0, d.1) in rw c (h, n, (apart, d.1, d.2))
]

below-Avoids :
    (ms : List UserMapping) (a b : ℕ) → range_is_free ms a b ≡ true → Avoids a b (ranges_below ms)
unfolding range_is_free ranges_below
below-Avoids [] a b h = tt
below-Avoids (m ∷ ms) a b h =
    let clear : overlaps m a b ≡ false = ground (arith, h) in
    let free : range_is_free ms a b ≡ true = ground (arith, h) in
    let rest = below-Avoids ms a b free in
    elim (Bool-cases (leb (range_end m) user_stack_lower_bound)) [
      | inl c ↦ rw c (
          insert_range-Avoids a b (range_start m, range_end m) (ranges_below ms)
            (overlaps-false m a b clear) rest)
      | inr c ↦ rw c rest
    ]

below-Descends :
    (ms : List UserMapping) → IsMap ms → Descends user_stack_lower_bound (ranges_below ms)
unfolding ranges_below
below-Descends [] w = tt
below-Descends (m ∷ ms) w = elim (Bool-cases (leb (range_end m) user_stack_lower_bound)) [
  | inl c ↦
      let le : range_end m ≤ user_stack_lower_bound = ground (arith, c) in
      rw c (
        insert_range-Descends user_stack_lower_bound (range_start m, range_end m) (ranges_below ms)
          (w.0) le (below-Avoids ms (range_start m) (range_end m) (w.1)) (below-Descends ms (w.2)))
  | inr c ↦ rw c (below-Descends ms (w.2))
]

Avoids-free :
    (ms : List UserMapping) (a b : ℕ)
    → ClearsStack ms
    → b ≤ user_stack_lower_bound
    → Avoids a b (ranges_below ms)
    → range_is_free ms a b ≡ true
unfolding range_is_free ranges_below
Avoids-free [] a b k h v = refl
Avoids-free (m ∷ ms) a b k h v = elim (Bool-cases (leb (range_end m) user_stack_lower_bound)) [
  | inl c ↦
      let both =
        Avoids-insert_range a b (range_start m, range_end m) (ranges_below ms) (rw c at v) in
      joined (both.0) (Avoids-free ms a b (k.1) h (both.1))
  | inr c ↦
      let above : (range_end m ≤ a) ⊎ (b ≤ range_start m) = ground (arith, k.0, c) in
      joined above (Avoids-free ms a b (k.1) h (rw c at v))
]
  where
    joined :
        (range_end m ≤ a) ⊎ (b ≤ range_start m)
        → range_is_free ms a b ≡ true
        → range_is_free (m ∷ ms) a b ≡ true
    joined w rest = rw (not_overlaps m a b w) rest

-- What the search below `top` for `length` bytes answers: the greatest start of a free range.
data FindsBelow (avoids : ℕ → Type 0) (top length : ℕ) : Option ℕ → Type 0 where
  found :
      (a : ℕ)
      → a + length ≤ top
      → avoids a
      → ((b : ℕ) → a < b → b + length ≤ top → avoids b → ⊥)
      → FindsBelow avoids top length (some a)
  nothing : ((b : ℕ) → b + length ≤ top → avoids b → ⊥) → FindsBelow avoids top length none

Descends-Avoids : (top a b : ℕ) (rs : List (ℕ × ℕ)) → Descends top rs → top ≤ a → Avoids a b rs
Descends-Avoids top a b [] d h = tt
Descends-Avoids top a b (r ∷ rs) d h =
    (inl (omega (arith, d.0)), Descends-Avoids (r.0) a b rs (d.2) (omega (arith, d.0, d.1)))

find_below-Finds :
    (rs : List (ℕ × ℕ)) (top length : ℕ)
    → 0 < length
    → Descends top rs
    → FindsBelow (λ a. Avoids a (a + length) rs) top length (find_below rs top length)
unfolding find_below
find_below-Finds [] top length n d = elim (Bool-cases (leb length top)) [
  | inl c ↦
      let le : length ≤ top = ground (arith, c) in
      rw c (found (top - length) (omega arith) tt (λ b lt h v. omega arith))
  | inr c ↦ let lt : top < length = ground (arith, c) in rw c (nothing (λ b h v. omega arith))
]
find_below-Finds (r ∷ rs) top length n d =
    elim (Bool-cases (ltb (r.1) top && leb length (top - r.1))) [
      | inl c ↦
          let fits : (r.1 < top) × (length ≤ top - r.1) = ground (arith, c) in
          let at : top - length + length ≤ top = omega (arith, fits.0, fits.1) in
          let over : r.1 ≤ top - length = omega (arith, fits.0, fits.1) in
          rw c (
            found (top - length) at
              (
                inl over,
                Descends-Avoids (r.0) (top - length) (top - length + length) rs (d.2)
                    (omega (arith, d.1)),
              )
              (λ b lt h v. omega arith))
      | inr c ↦
          let tight : top < r.1 + length = ground (arith, c, n) in
          rw c (extend tight (find_below-Finds rs (r.0) length n (d.2)))
    ]
  where
    under :
        top < r.1 + length
        → (b : ℕ) → b + length ≤ top
        → Avoids b (b + length) (r ∷ rs)
        → b + length ≤ r.0
    under tight b h v = ground (arith, v.0)

    extend :
        {o : Option ℕ}
        → top < r.1 + length
        → FindsBelow (λ a. Avoids a (a + length) rs) (r.0) length o
        → FindsBelow (λ a. Avoids a (a + length) (r ∷ rs)) top length o
    extend tight (found a h v most) =
        found a (omega (arith, d.0, d.1)) (inr h, v)
          (λ b lt k w. most b lt (under tight b k w) (w.1))
    extend tight (nothing none_left) = nothing (λ b k w. none_left b (under tight b k w) (w.1))

-- What `find_free_region` answers: the highest free range below the stack, or that there is none.
pub data FindsRegion (ms : List UserMapping) (length : ℕ) : Option ℕ → Type 0 where
  region :
      (a : ℕ)
      → a + length ≤ user_stack_lower_bound
      → range_is_free ms a (a + length) ≡ true
      → ((b : ℕ)
          → a < b
          → b + length ≤ user_stack_lower_bound
          → range_is_free ms b (b + length) ≡ false)
      → FindsRegion ms length (some a)
  full :
      ((b : ℕ) → b + length ≤ user_stack_lower_bound → range_is_free ms b (b + length) ≡ false)
      → FindsRegion ms length none

-- When each mapping holds a byte, no two overlap and none reaches across the lower end of the stack,
-- `find_free_region` answers for a `length` that is not 0 the highest range below the stack that is
-- free, and `none` only when no range of that length is free there.
pub find_free_region-FindsRegion :
    (ms : List UserMapping) (length : ℕ)
    → 0 < length
    → IsMap ms
    → ClearsStack ms
    → FindsRegion ms length (find_free_region ms length)
unfolding find_free_region
find_free_region-FindsRegion ms length n w k =
    weaken
      (find_below-Finds (ranges_below ms) user_stack_lower_bound length n (below-Descends ms w))
  where
    taken :
        (b : ℕ)
        → (Avoids b (b + length) (ranges_below ms) → ⊥)
        → range_is_free ms b (b + length) ≡ false
    taken b h = elim (Bool-cases (range_is_free ms b (b + length))) [
      | inl free ↦ absurd (h (below-Avoids ms b (b + length) free))
      | inr f ↦ f
    ]

    weaken :
        {o : Option ℕ}
        → FindsBelow (λ a. Avoids a (a + length) (ranges_below ms)) user_stack_lower_bound length o
        → FindsRegion ms length o
    weaken (found a h v most) =
        region a h (Avoids-free ms a (a + length) k h v) (λ b lt le. taken b (most b lt le))
    weaken (nothing none_left) = full (λ b le. taken b (none_left b le))
