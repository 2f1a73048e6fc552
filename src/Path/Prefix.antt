-- ===== src/Path/Prefix.antt =====
-- `starts_with` and `ends_with` on the components of paths.
use athera.Prelude.{
  ℕ, zero, suc, ◌+◌, ◌-◌, ◌≡◌, ◌↔◌, refl, sym, ap, ◌∙◌, true, ◌&&◌, List, [], ◌∷◌, ◌++◌, length,
  length-append, take, drop, take-append-drop, leb, arith, inl, inr, Option-cases,
}
use athera.Path.{
  Component, root_dir, cur_dir, parent_dir, normal, split, Components, components, next, collect,
  all_components, bytes_eq, component_eq, all_eq, starts_with, ends_with,
}
use athera.Path.Push.{listing}
use athera.Path.Iter.{drain, drain-components}

collect-drain : (n : ℕ) (it : Components) → collect n it ≡ drain n it
unfolding collect drain
collect-drain zero it = refl
collect-drain (suc n) it = elim (Option-cases ((next it).1)) [
  | inl e ↦ rw (e, collect, drain) refl
  | inr (c, e) ↦ rw (e, collect, drain) (ap (λ l. c ∷ l) (collect-drain n ((next it).0)))
]

all_components-listing : (s : List ℕ) → all_components s ≡ listing s
unfolding all_components
all_components-listing s =
    collect-drain (length (split s) + 2) (components s)
    ∙ drain-components s (length (split s) + 2) (omega arith)

bytes_eq→ : (s t : List ℕ) → bytes_eq s t ≡ true → s ≡ t
unfolding bytes_eq
bytes_eq→ [] [] h = refl
bytes_eq→ [] (d ∷ t) h = absurd (ground (arith, h))
bytes_eq→ (c ∷ s) [] h = absurd (ground (arith, h))
bytes_eq→ (c ∷ s) (d ∷ t) h =
    let head : c ≡ d = ground (arith, h) in
    let rest = bytes_eq→ s t (ground (arith, h)) in ap (λ x. x ∷ s) head ∙ ap (λ l. d ∷ l) rest

bytes_eq_refl : (s : List ℕ) → bytes_eq s s ≡ true
unfolding bytes_eq
bytes_eq_refl [] = refl
bytes_eq_refl (c ∷ s) = ground (arith, bytes_eq_refl s)

component_eq→ : (c d : Component) → component_eq c d ≡ true → c ≡ d
unfolding component_eq
component_eq→ root_dir root_dir h = refl
component_eq→ cur_dir cur_dir h = refl
component_eq→ parent_dir parent_dir h = refl
component_eq→ (normal s) (normal t) h = ap normal (bytes_eq→ s t h)
component_eq→ _ _ h = absurd (ground (arith, h))

component_eq_refl : (c : Component) → component_eq c c ≡ true
unfolding component_eq
component_eq_refl root_dir = refl
component_eq_refl cur_dir = refl
component_eq_refl parent_dir = refl
component_eq_refl (normal s) = bytes_eq_refl s

all_eq→ : (cs ds : List Component) → all_eq cs ds ≡ true → cs ≡ ds
unfolding all_eq
all_eq→ [] [] h = refl
all_eq→ [] (d ∷ ds) h = absurd (ground (arith, h))
all_eq→ (c ∷ cs) [] h = absurd (ground (arith, h))
all_eq→ (c ∷ cs) (d ∷ ds) h =
    let head = component_eq→ c d (ground (arith, h)) in
    let rest = all_eq→ cs ds (ground (arith, h)) in ap (λ x. x ∷ cs) head ∙ ap (λ l. d ∷ l) rest

all_eq_refl : (cs : List Component) → all_eq cs cs ≡ true
unfolding all_eq
all_eq_refl [] = refl
all_eq_refl (c ∷ cs) = ground (arith, component_eq_refl c, all_eq_refl cs)

take-append : (b r : List Component) → take (length b) (b ++ r) ≡ b
take-append [] r = refl
take-append (c ∷ b) r = ap (λ l. c ∷ l) (take-append b r)

drop-append : (a b : List Component) → drop (length a) (a ++ b) ≡ b
drop-append [] b = refl
drop-append (c ∷ a) b = drop-append a b

-- `starts_with` holds exactly when the components of the path are those of `base` and then others.
pub starts_with_iff :
    (s base : List ℕ)
    → (starts_with s base ≡ true) ↔ ((rest : List Component) × (listing s ≡ listing base ++ rest))
unfolding starts_with
starts_with_iff s base = rw (all_components-listing s, all_components-listing base) (holds, found)
  where
    a : List Component
    a = listing s

    b : List Component
    b = listing base

    holds :
        (leb (length b) (length a) && all_eq (take (length b) a) b) ≡ true
        → (rest : List Component) × (a ≡ b ++ rest)
    holds h =
        let front = all_eq→ (take (length b) a) b (ground (arith, h)) in
        (
          drop (length b) a,
          sym (take-append-drop (length b) a) ∙ ap (λ l. l ++ drop (length b) a) front,
        )

    found :
        (rest : List Component) × (a ≡ b ++ rest)
        → (leb (length b) (length a) && all_eq (take (length b) a) b) ≡ true
    found (rest, e) =
        let longer : length a ≡ length b + length rest = ap length e ∙ length-append b rest in
        let front : take (length b) a ≡ b = ap (take (length b)) e ∙ take-append b rest in
        rw front (ground (arith, longer, all_eq_refl b))

-- `ends_with` holds exactly when the components of the path are others and then those of `child`.
ends_with_iff :
    (s child : List ℕ)
    → (ends_with s child ≡ true) ↔ ((rest : List Component) × (listing s ≡ rest ++ listing child))
unfolding ends_with
ends_with_iff s child = rw (all_components-listing s, all_components-listing child) (holds, found)
  where
    a : List Component
    a = listing s

    b : List Component
    b = listing child

    holds :
        (leb (length b) (length a) && all_eq (drop (length a - length b) a) b) ≡ true
        → (rest : List Component) × (a ≡ rest ++ b)
    holds h =
        let back = all_eq→ (drop (length a - length b) a) b (ground (arith, h)) in
        (
          take (length a - length b) a,
          sym (take-append-drop (length a - length b) a)
              ∙ ap (λ l. take (length a - length b) a ++ l) back,
        )

    found :
        (rest : List Component) × (a ≡ rest ++ b)
        → (leb (length b) (length a) && all_eq (drop (length a - length b) a) b) ≡ true
    found (rest, e) =
        let longer : length a ≡ length rest + length b = ap length e ∙ length-append rest b in
        let at : length a - length b ≡ length rest = omega arith in
        let back : drop (length a - length b) a ≡ b =
          ap (λ n. drop n a) at ∙ ap (drop (length rest)) e ∙ drop-append rest b in
        rw back (ground (arith, longer, all_eq_refl b))
