-- ===== src/MemoryMap/Keeps.antt =====
-- The parts of the mappings that `unmap_range` keeps, and what they and their new mappings hold.
use athera.Prelude.{
  ℕ, ◌+◌, ◌-◌, ◌%◌, ◌^◌, ◌≤◌, ◌<◌, ◌≡◌, refl, ◌⊎◌, inl, inr, true, false, ◌&&◌, List, [], ◌∷◌, ◌++◌,
  map, ltb, min, max, if◌then◌else◌, arith, Bool-cases,
}
use athera.Prelude.Result.{ok}
use athera.Frames.{Frame}
use athera.Frames.Segments.{total, rounded, Blocks}
use athera.MemoryMap.{UserMapping, range_start, range_end, overlaps, range_is_free, page_start}
use athera.MemoryMap.Pages.{Machine, After, Keep, keeps_of, all_keeps}
use athera.MemoryMap.Align.{page_start_twice, page_start_aligned, frames_size-Blocks}
use athera.MemoryMap.Regions.{not_overlaps}
use athera.MemoryMap.Unmap.{
  Filled, filled_none, filled, outside, as_mapping, Unmaps, unmapped, not_saved, not_mapped,
}

-- Every mapping starts at a word.
abbrev pub IsWords : List UserMapping → Type 0
IsWords [] = Unit
IsWords (m ∷ ms) = (m.va < 2 ^ 64) × IsWords ms

-- The allocator gives no byte more than the size of a part to keep.
abbrev pub IsExact : List Keep → Type 0
IsExact [] = Unit
IsExact (k ∷ ks) = (rounded k.size ≡ k.size) × IsExact ks

pub range_is_free-append :
    (ms ns : List UserMapping) (a b : ℕ)
    → range_is_free (ms ++ ns) a b ≡ (range_is_free ms a b && range_is_free ns a b)
unfolding range_is_free
range_is_free-append [] ns a b = refl
range_is_free-append (m ∷ ms) ns a b = ground (arith, range_is_free-append ms ns a b)

pub outside_free :
    (ms : List UserMapping) (start end : ℕ) → range_is_free (outside ms start end) start end ≡ true
unfolding outside range_is_free
outside_free [] start end = refl
outside_free (m ∷ ms) start end = elim (Bool-cases (overlaps m start end)) [
  | inl c ↦ rw c (outside_free ms start end)
  | inr c ↦ rw c (rw c (outside_free ms start end))
]

-- A part to keep begins on a page, and ends before the range or begins at its end.
abbrev Beside : ℕ → ℕ → List Keep → Type 0
Beside start end [] = Unit
Beside start end (k ∷ ks) =
    (page_start k.va ≡ k.va) × ((k.va + k.size ≤ start) ⊎ (end ≤ k.va)) × Beside start end ks

Beside-append :
    (start end : ℕ) (ks ls : List Keep)
    → Beside start end ks
    → Beside start end ls
    → Beside start end (ks ++ ls)
Beside-append start end [] ls v w = w
Beside-append start end (k ∷ ks) ls v w = (v.0, v.1, Beside-append start end ks ls (v.2) w)

keeps_of-Beside :
    (m : UserMapping) (start end : ℕ)
    → m.va < 2 ^ 64
    → end < 2 ^ 64
    → end % 4096 ≡ 0
    → overlaps m start end ≡ true
    → Beside start end (keeps_of m start end)
unfolding keeps_of overlaps range_start
keeps_of-Beside m start end h l e o =
    elim (Bool-cases (ltb (page_start m.va) (max (page_start m.va) start))) [
      | inl c ↦
          let lt : page_start m.va < start = ground (arith, c) in
          rw c (page_start_twice m.va h, inl (omega arith), right)
      | inr c ↦ rw c right
    ]
  where
    right : Beside start end (
        if ltb (min (range_end m) end) (range_end m)
        then (record {
          va = min (range_end m) end;
          size = range_end m - min (range_end m) end;
          flags = m.flags;
        }
            ∷ [])
        else [])
    right = elim (Bool-cases (ltb (min (range_end m) end) (range_end m))) [
      | inl d ↦
          let at : min (range_end m) end ≡ end = ground (arith, d) in
          rw d (rw at (page_start_aligned end l e, inr (omega arith), tt))
      | inr d ↦ rw d tt
    ]

pub all_keeps-Beside :
    (ms : List UserMapping) (start end : ℕ)
    → IsWords ms
    → end < 2 ^ 64
    → end % 4096 ≡ 0
    → Beside start end (all_keeps ms start end)
unfolding all_keeps
all_keeps-Beside [] start end w l e = tt
all_keeps-Beside (m ∷ ms) start end w l e = elim (Bool-cases (overlaps m start end)) [
  | inl c ↦ rw c (
      Beside-append start end (keeps_of m start end) (all_keeps ms start end)
        (keeps_of-Beside m start end (w.0) l e c) (all_keeps-Beside ms start end (w.1) l e))
  | inr c ↦ rw c (all_keeps-Beside ms start end (w.1) l e)
]

-- The mapping of a buffer ends where its frames do.
as_mapping-range_end :
    (frames : List Frame) (k : Keep)
    → page_start k.va ≡ k.va
    → Blocks frames
    → range_end (as_mapping (frames, k)) ≡ k.va + total frames
unfolding range_end range_start as_mapping
as_mapping-range_end frames k e bs = omega (arith, frames_size-Blocks frames bs)

pub kept_free :
    (ks : List Keep) (bs : List (List Frame × Keep)) (start end : ℕ)
    → Beside start end ks
    → IsExact ks
    → Filled ks bs
    → range_is_free (map as_mapping bs) start end ≡ true
unfolding range_is_free range_start as_mapping
kept_free _ _ start end v x filled_none = refl
kept_free _ _ start end v x (filled k frames ks bs b q e le blocks f) =
    let ends = as_mapping-range_end frames k (v.0) blocks in
    let starts : range_start (as_mapping (frames, k)) ≡ k.va = v.0 in
    let clear : overlaps (as_mapping (frames, k)) start end ≡ false =
      not_overlaps (as_mapping (frames, k)) start end (ground (arith, v.1, x.0, ends, starts, e)) in
    rw clear (kept_free ks bs start end (v.2) (x.1) f)

-- A part to keep holds the address.
abbrev Holds : ℕ → List Keep → Type 0
Holds va [] = ⊥
Holds va (k ∷ ks) = ((k.va ≤ va) × (va < k.va + k.size)) ⊎ Holds va ks

Holds-left : (va : ℕ) (ks ls : List Keep) → Holds va ks → Holds va (ks ++ ls)
Holds-left va [] ls h = absurd h
Holds-left va (k ∷ ks) ls (inl h) = inl h
Holds-left va (k ∷ ks) ls (inr h) = inr (Holds-left va ks ls h)

Holds-right : (va : ℕ) (ks ls : List Keep) → Holds va ls → Holds va (ks ++ ls)
Holds-right va [] ls h = h
Holds-right va (k ∷ ks) ls h = inr (Holds-right va ks ls h)

keeps_of-Holds :
    (m : UserMapping) (start end va : ℕ)
    → (va < start) ⊎ (end ≤ va)
    → range_start m ≤ va
    → va < range_end m
    → Holds va (keeps_of m start end)
unfolding keeps_of
keeps_of-Holds m start end va (inl lt) h l =
    let c : ltb (range_start m) (max (range_start m) start) ≡ true = ground arith in
    rw c (inl (h, omega arith))
keeps_of-Holds m start end va (inr le) h l =
    let d : ltb (min (range_end m) end) (range_end m) ≡ true = ground arith in
    elim (Bool-cases (ltb (range_start m) (max (range_start m) start))) [
      | inl c ↦ rw (c, d) (inr (inl (omega arith, omega arith)))
      | inr c ↦ rw (c, d) (inl (omega arith, omega arith))
    ]

pub overlaps-true :
    (m : UserMapping) (va : ℕ)
    → range_start m ≤ va
    → va < range_end m
    → overlaps m va (va + 1) ≡ true
unfolding overlaps
overlaps-true m va h l = ground arith

pub true-overlaps :
    (m : UserMapping) (va : ℕ)
    → overlaps m va (va + 1) ≡ true
    → (range_start m ≤ va) × (va < range_end m)
unfolding overlaps
true-overlaps m va h = ground (arith, h)

pub kept_held :
    (va start end : ℕ) (ks : List Keep) (bs : List (List Frame × Keep))
    → Beside start end ks
    → Filled ks bs
    → Holds va ks
    → range_is_free (map as_mapping bs) va (va + 1) ≡ false
unfolding range_is_free range_start as_mapping
kept_held va start end _ _ v filled_none h = absurd h
kept_held va start end _ _ v (filled k frames ks bs b q e le blocks f) (inl h) =
    let ends = as_mapping-range_end frames k (v.0) blocks in
    let starts : range_start (as_mapping (frames, k)) ≡ k.va = v.0 in
    let meets : overlaps (as_mapping (frames, k)) va (va + 1) ≡ true =
      overlaps-true (as_mapping (frames, k)) va (omega (arith, h.0)) (omega (arith, h.1)) in
    rw meets refl
kept_held va start end _ _ v (filled k frames ks bs b q e le blocks f) (inr h) =
    ground (arith, kept_held va start end ks bs (v.2) f h)

pub mapped_before :
    (ms : List UserMapping) (start end va : ℕ)
    → (va < start) ⊎ (end ≤ va)
    → range_is_free ms va (va + 1) ≡ false
    → (range_is_free (outside ms start end) va (va + 1) ≡ false) ⊎ Holds va (all_keeps ms start end)
unfolding range_is_free outside all_keeps
mapped_before [] start end va w h = absurd (ground (arith, h))
mapped_before (m ∷ ms) start end va w h = elim (Bool-cases (overlaps m start end)) [
  | inl c ↦ rw c (elim (Bool-cases (overlaps m va (va + 1))) [
    | inl o ↦
        let at = true-overlaps m va o in
        inr (
          Holds-left va (keeps_of m start end) (all_keeps ms start end)
            (keeps_of-Holds m start end va w (at.0) (at.1)))
    | inr o ↦ elim (mapped_before ms start end va w (ground (arith, h, o))) [
      | inl q ↦ inl q
      | inr q ↦ inr (Holds-right va (keeps_of m start end) (all_keeps ms start end) q)
    ]
  ])
  | inr c ↦ rw c (elim (Bool-cases (overlaps m va (va + 1))) [
    | inl o ↦ inl (ground (arith, o))
    | inr o ↦ elim (mapped_before ms start end va w (ground (arith, h, o))) [
      | inl q ↦ inl (ground (arith, q))
      | inr q ↦ inr q
    ]
  ])
]

-- The list after a successful call.
pub data Cleared (ms : List UserMapping) (start end : ℕ) (out : List UserMapping) : Type 0 where
  cleared :
      (bs : List (List Frame × Keep))
      → Filled (all_keeps ms start end) bs
      → outside ms start end ++ map as_mapping bs ≡ out
      → Cleared ms start end out

pub Unmaps-Cleared :
    {s : Machine} {ms : List UserMapping} {start end : ℕ} {r : After (Unit {0})}
    → Unmaps s ms start end r
    → r.answer ≡ ok tt
    → Cleared ms start end r.mappings
Unmaps-Cleared (unmapped s' bs out f e) h = cleared bs f e
Unmaps-Cleared (not_saved s' e same w) h = absurd (ground (arith, h))
Unmaps-Cleared (not_mapped s' e out done left f q) h = absurd (ground (arith, h))
