-- ===== src/Path/Push.antt =====
-- `push` and `join` on the components of a path.
use athera.Prelude.{
  ℕ, ◌≡◌, refl, sym, ap, ◌∙◌, none, some, true, false, List, [], ◌∷◌, ◌++◌, ◌==◌, if◌then◌else◌,
  arith, inl, inr, Bool-cases, Option-cases,
}
use athera.Path.{
  Component, root_dir, is_absolute, is_empty, ends_with_separator, push, prepend, split, classify,
}

-- The components of the parts that are not empty.
unfoldable pub names : List (List ℕ) → List Component
names [] = []
names (part ∷ parts) = elim (classify part) [ none ↦ names parts | some c ↦ c ∷ names parts ]

-- All components of a path: the root, if the path begins with a separator, and then the names.
unfoldable pub listing : List ℕ → List Component
listing s = if is_absolute s then root_dir ∷ names (split s) else names (split s)

pub append_nil : {A : Type 0} (xs : List A) → xs ++ [] ≡ xs
append_nil [] = refl
append_nil (x ∷ xs) = ap (λ l. x ∷ l) (append_nil xs)

names-append : (ps qs : List (List ℕ)) → names (ps ++ qs) ≡ names ps ++ names qs
unfolding names
names-append [] qs = refl
names-append (p ∷ ps) qs = elim (Option-cases (classify p)) [
  | inl e ↦ rw (e, names) (names-append ps qs)
  | inr (c, e) ↦ rw (e, names) (ap (λ l. c ∷ l) (names-append ps qs))
]

-- A split has a first part.
prepend-append :
    (c : ℕ) (cs : List ℕ) (qs : List (List ℕ))
    → prepend c (split cs ++ qs) ≡ prepend c (split cs) ++ qs
unfolding prepend split
prepend-append c [] qs = refl
prepend-append c (d ∷ cs) qs = elim (Bool-cases (d == 47)) [
  | inl h ↦ rw h refl
  | inr h ↦ rw h (first (split cs))
]
  where
    first : (ps : List (List ℕ)) → prepend c (prepend d ps ++ qs) ≡ prepend c (prepend d ps) ++ qs
    first [] = refl
    first (p ∷ ps) = refl

split-append : (a b : List ℕ) → split (a ++ (47 ∷ b)) ≡ split a ++ split b
unfolding split
split-append [] b = refl
split-append (c ∷ cs) b = elim (Bool-cases (c == 47)) [
  | inl h ↦ rw h (ap (λ l. [] ∷ l) (split-append cs b))
  | inr h ↦ rw h (ap (prepend c) (split-append cs b) ∙ prepend-append c cs (split b))
]

-- A separator in between splits the names.
pub names-split :
    (a b : List ℕ) → names (split (a ++ (47 ∷ b))) ≡ names (split a) ++ names (split b)
names-split a b = ap names (split-append a b) ∙ names-append (split a) (split b)

-- A path that ends in a separator, without it.
pub chop : (s : List ℕ) → ends_with_separator s ≡ true → (t : List ℕ) × (s ≡ t ++ (47 ∷ []))
unfolding ends_with_separator
chop [] h = absurd (ground (arith, h))
chop (c ∷ []) h = let at : c ≡ 47 = ground (arith, h) in ([], ap (λ x. x ∷ []) at)
chop (c ∷ d ∷ cs) h = let (t, e) = chop (d ∷ cs) h in (c ∷ t, ap (λ l. c ∷ l) e)

pub append_assoc : {A : Type 0} (a b c : List A) → (a ++ b) ++ c ≡ a ++ (b ++ c)
append_assoc [] b c = refl
append_assoc (x ∷ a) b c = ap (λ l. x ∷ l) (append_assoc a b c)

-- A path that ends in a separator takes another path as it is.
names_closed :
    (buf path : List ℕ)
    → ends_with_separator buf ≡ true
    → names (split (buf ++ path)) ≡ names (split buf) ++ names (split path)
unfolding split names classify
names_closed buf path h =
    let (t, e) = chop buf h in
    let whole : buf ++ path ≡ t ++ (47 ∷ path) =
      ap (λ b. b ++ path) e ∙ append_assoc t (47 ∷ []) path in
    let alone : names (split buf) ≡ names (split t) =
      ap (λ b. names (split b)) e ∙ names-split t [] ∙ append_nil (names (split t)) in
    ap (λ b. names (split b)) whole
    ∙ names-split t path
    ∙ ap (λ l. l ++ names (split path)) (sym alone)

absolute-append :
    (buf rest : List ℕ) → is_empty buf ≡ false → is_absolute (buf ++ rest) ≡ is_absolute buf
unfolding is_empty is_absolute
absolute-append [] rest h = absurd (ground (arith, h))
absolute-append (c ∷ cs) rest h = refl

-- The root of the longer path is that of the buffer.
longer :
    (buf rest : List ℕ) (ns : List Component)
    → is_empty buf ≡ false
    → names (split (buf ++ rest)) ≡ names (split buf) ++ ns
    → listing (buf ++ rest) ≡ listing buf ++ ns
unfolding listing
longer buf rest ns h e = elim (Bool-cases (is_absolute buf)) [
  | inl a ↦ rw (absolute-append buf rest h, a) (ap (λ l. root_dir ∷ l) e)
  | inr a ↦ rw (absolute-append buf rest h, a) e
]

relative_listing : (path : List ℕ) → is_absolute path ≡ false → listing path ≡ names (split path)
unfolding listing
relative_listing path h = rw h refl

pub empty_nil : (s : List ℕ) → is_empty s ≡ true → s ≡ []
unfolding is_empty
empty_nil [] h = refl
empty_nil (c ∷ cs) h = absurd (ground (arith, h))

listing_empty : (s : List ℕ) → is_empty s ≡ true → listing s ≡ []
unfolding listing names split classify is_absolute
listing_empty s h = ap listing (empty_nil s h)

-- The components of `push` (and of `join`): those of the pushed path alone when it is absolute, and
-- otherwise those of the buffer and then those of the path, whether the buffer is empty, ends in a
-- separator or does not.
pub listing-push :
    (buf path : List ℕ)
    → listing (push buf path)
      ≡ (if is_absolute path then listing path else listing buf ++ listing path)
unfolding push
listing-push buf path = elim (Bool-cases (is_absolute path)) [
  | inl a ↦ rw a refl
  | inr a ↦ elim (Bool-cases (is_empty path)) [
    | inl p ↦
        rw (a, p)
          (sym (ap (λ l. listing buf ++ l) (listing_empty path p) ∙ append_nil (listing buf)))
    | inr p ↦ elim (Bool-cases (is_empty buf)) [
      | inl b ↦
          rw (a, p, b)
            (ap (λ x. listing (x ++ path)) (empty_nil buf b)
              ∙ ap (λ l. l ++ listing path) (sym (listing_empty buf b)))
      | inr b ↦ elim (Bool-cases (ends_with_separator buf)) [
        | inl s ↦
            rw (a, p, b, s)
              (longer buf path (listing path) b (
                names_closed buf path s
                ∙ ap (λ l. names (split buf) ++ l) (sym (relative_listing path a))))
        | inr s ↦
            rw (a, p, b, s)
              (longer buf (47 ∷ path) (listing path) b (
                names-split buf path
                ∙ ap (λ l. names (split buf) ++ l) (sym (relative_listing path a))))
      ]
    ]
  ]
]
