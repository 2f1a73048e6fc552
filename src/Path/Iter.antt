-- ===== src/Path/Iter.antt =====
-- The iterator over the components of a path.
use athera.Prelude.{
  ℕ, zero, suc, ◌+◌, ◌<◌, ◌≡◌, refl, sym, ap, ◌∙◌, Option, none, some, Bool, true, false, not, ◌&&◌,
  List, [], ◌∷◌, length, arith, inl, inr, Bool-cases, Option-cases,
}
use athera.Path.{
  Component, root_dir, is_absolute, split, Components, components, classify, next_part, next,
}
use athera.Path.Push.{names, listing}

-- What `n` calls of `next` yield up to the first `None`.
unfoldable pub drain : ℕ → Components → List Component
drain zero it = []
drain (suc n) it = elim ((next it).1) [ none ↦ [] | some c ↦ c ∷ drain n ((next it).0) ]

-- The answer of `next_part`: the first name and the parts behind it.
data FirstName (ps : List (List ℕ)) : List (List ℕ) × Option Component → Type 0 where
  no_name : names ps ≡ [] → FirstName ps ([], none)
  name :
      (c : Component) (rest : List (List ℕ))
      → names ps ≡ c ∷ names rest
      → length rest < length ps
      → FirstName ps (rest, some c)

skip :
    (p : List ℕ) (ps : List (List ℕ)) (r : List (List ℕ) × Option Component)
    → classify p ≡ none
    → FirstName ps r
    → FirstName (p ∷ ps) r
unfolding names
skip p ps _ e (FirstName.no_name h) = FirstName.no_name (rw (e, names) h)
skip p ps _ e (FirstName.name c rest h l) =
    FirstName.name c rest (rw (e, names) h) (omega (arith, l))

next_part-FirstName : (ps : List (List ℕ)) → FirstName ps (next_part ps)
unfolding next_part names
next_part-FirstName [] = FirstName.no_name refl
next_part-FirstName (p ∷ ps) = elim (Option-cases (classify p)) [
  | inl e ↦ rw (e, next_part) (skip p ps _ e (next_part-FirstName ps))
  | inr (c, e) ↦ rw (e, next_part) (FirstName.name c ps (rw (e, names) refl) (omega arith))
]

abbrev PastRoot : Bool → Bool → Type 0
PastRoot absolute seen = (absolute && not seen) ≡ false

round :
    (n : ℕ) (absolute seen : Bool) (ps : List (List ℕ)) (r : List (List ℕ) × Option Component)
    → FirstName ps r
    → ((qs : List (List ℕ))
        → length qs < length ps
        → drain n (record { parts = qs; absolute = absolute; seen_root = seen }) ≡ names qs)
    → elim (r.1) [
      | none ↦ []
      | some c ↦ c ∷ drain n (record { parts = r.0; absolute = absolute; seen_root = seen })
    ]
      ≡ names ps
round n absolute seen ps _ (FirstName.no_name h) rest = sym h
round n absolute seen ps _ (FirstName.name c qs h l) rest = ap (λ m. c ∷ m) (rest qs l) ∙ sym h

next_past :
    (absolute seen : Bool) (ps : List (List ℕ))
    → PastRoot absolute seen
    → next (record { parts = ps; absolute = absolute; seen_root = seen }) ≡ (
      record { parts = (next_part ps).0; absolute = absolute; seen_root = seen },
      (next_part ps).1,
    )
unfolding next
next_past absolute seen ps h = rw h refl

drain-names :
    (n : ℕ) (absolute seen : Bool) (ps : List (List ℕ))
    → PastRoot absolute seen
    → length ps < n
    → drain n (record { parts = ps; absolute = absolute; seen_root = seen }) ≡ names ps
unfolding drain
drain-names zero absolute seen ps h l = absurd (omega arith)
drain-names (suc n) absolute seen ps h l =
    ap
      (λ (r : Components × Option Component). elim (r.1) [ none ↦ [] | some c ↦ c ∷ drain n (r.0) ])
      (next_past absolute seen ps h)
    ∙ round n absolute seen ps (next_part ps) (next_part-FirstName ps)
        (λ qs k. drain-names n absolute seen qs h (omega arith))

-- A loop over `components` that is given more rounds than the path has parts and a root yields the
-- root, if the path begins with a separator, and then the names of its parts that are not empty.
pub drain-components :
    (s : List ℕ) (n : ℕ) → length (split s) + 1 < n → drain n (components s) ≡ listing s
unfolding components listing
drain-components s zero h = absurd (omega arith)
drain-components s (suc n) h = elim (Bool-cases (is_absolute s)) [
  | inl a ↦ rw a (
      unfold drain next in
      ap (λ l. root_dir ∷ l) (drain-names n true true (split s) refl (omega arith)))
  | inr a ↦ rw a (drain-names (suc n) false false (split s) refl (omega arith))
]
