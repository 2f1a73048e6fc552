-- ===== src/Path/Names.antt =====
-- The last separator of a path, and the names on its two sides.
use athera.Prelude.{
  ℕ, suc, ◌≡◌, ◌≢◌, refl, sym, ap, ◌∙◌, Option, none, some, Bool, true, false, ◌&&◌, List, [], ◌∷◌,
  ◌++◌, length, ◌==◌, if◌then◌else◌, arith, inl, inr, Bool-cases,
}
use athera.Path.{
  Component, root_dir, cur_dir, parent_dir, normal, is_absolute, is_empty, ends_with_separator,
  split, prepend, classify, trim_end, rfind, path_separator,
}
use athera.Path.Push.{names, listing, names-split, append_nil}

-- Bytes without a separator.
pub data IsName : List ℕ → Type 0 where
  end_of : IsName []
  more : (c : ℕ) (cs : List ℕ) → c ≢ 47 → IsName cs → IsName (c ∷ cs)

-- Separators only.
pub data Separators : List ℕ → Type 0 where
  no_more : Separators []
  one_more : (cs : List ℕ) → Separators cs → Separators (47 ∷ cs)

-- What `trim_end` takes away.
pub data Trims (s t : List ℕ) : Type 0 where
  trims : (seps : List ℕ) → Separators seps → s ≡ t ++ seps → Trims s t

pub trim_end-Trims : (s : List ℕ) → Trims s (trim_end s)
unfolding trim_end is_empty
trim_end-Trims [] = trims [] no_more refl
trim_end-Trims (c ∷ cs) = extend (trim_end cs) (trim_end-Trims cs)
  where
    kept : (t : List ℕ) → Trims cs t → Trims (c ∷ cs) (c ∷ t)
    kept t (trims seps w e) = trims seps w (ap (λ l. c ∷ l) e)

    extend :
        (t : List ℕ) → Trims cs t → Trims (c ∷ cs) (if c == 47 && is_empty t then [] else c ∷ t)
    extend [] (trims seps w e) = elim (Bool-cases (c == 47)) [
      | inl h ↦
          let at : c ≡ 47 = ground (arith, h) in
          rw h (trims (47 ∷ seps) (one_more seps w) (ap (λ x. x ∷ cs) at ∙ ap (λ l. 47 ∷ l) e))
      | inr h ↦ rw h (kept [] (trims seps w e))
    ]
    extend (d ∷ t) w = elim (Bool-cases (c == 47)) [
      | inl h ↦ rw h (kept (d ∷ t) w)
      | inr h ↦ rw h (kept (d ∷ t) w)
    ]

-- What is left does not end in a separator.
pub ends_with_separator-trim_end : (s : List ℕ) → ends_with_separator (trim_end s) ≡ false
unfolding trim_end ends_with_separator is_empty
ends_with_separator-trim_end [] = refl
ends_with_separator-trim_end (c ∷ cs) = extend (trim_end cs) (ends_with_separator-trim_end cs)
  where
    extend :
        (t : List ℕ)
        → ends_with_separator t ≡ false
        → ends_with_separator (if c == 47 && is_empty t then [] else c ∷ t) ≡ false
    extend [] h = elim (Bool-cases (c == 47)) [ inl k ↦ rw k refl | inr k ↦ rw k k ]
    extend (d ∷ t) h = elim (Bool-cases (c == 47)) [ inl k ↦ rw k h | inr k ↦ rw k h ]

pub ends_with_separator-append : (a : List ℕ) → ends_with_separator (a ++ (47 ∷ [])) ≡ true
unfolding ends_with_separator
ends_with_separator-append [] = refl
ends_with_separator-append (c ∷ []) = refl
ends_with_separator-append (c ∷ d ∷ a) = ends_with_separator-append (d ∷ a)

-- The answer of `rfind` of the separator.
pub data Finds (s : List ℕ) : Option ℕ → Type 0 where
  nowhere : IsName s → Finds s none
  at : (a b : List ℕ) → a ++ (47 ∷ b) ≡ s → IsName b → Finds s (some (length a))

pub rfind-Finds : (s : List ℕ) → Finds s (rfind 47 s)
unfolding rfind
rfind-Finds [] = nowhere end_of
rfind-Finds (c ∷ cs) = extend (rfind-Finds cs)
  where
    extend :
        {o : Option ℕ}
        → Finds cs o
        → Finds
            (c ∷ cs)
            (elim o [ some i ↦ some (suc i) | none ↦ if c == 47 then some 0 else none ])
    extend (nowhere w) = elim (Bool-cases (c == 47)) [
      | inl h ↦
          let here : c ≡ 47 = ground (arith, h) in rw h (at [] cs (ap (λ x. x ∷ cs) (sym here)) w)
      | inr h ↦ rw h (nowhere (more c cs (ground (arith, h)) w))
    ]
    extend (at a b e w) = at (c ∷ a) b (ap (λ l. c ∷ l) e) w

-- A name is one part.
split-IsName : (b : List ℕ) → IsName b → split b ≡ b ∷ []
unfolding split prepend
split-IsName _ end_of = refl
split-IsName _ (more c cs h w) =
    let other : (c == path_separator) ≡ false = ground (arith, h) in
    rw (other, split-IsName cs w) refl

-- The component of a part that is not empty.
unfoldable pub named : List ℕ → Component
named [] = root_dir
named (c ∷ []) = if c == 46 then cur_dir else normal (c ∷ [])
named (c ∷ d ∷ []) = if c == 46 && d == 46 then parent_dir else normal (c ∷ d ∷ [])
named (c ∷ d ∷ e ∷ cs) = normal (c ∷ d ∷ e ∷ cs)

classified : (c : ℕ) (cs : List ℕ) → names ((c ∷ cs) ∷ []) ≡ named (c ∷ cs) ∷ []
unfolding names classify named
classified c [] = elim (Bool-cases (c == 46)) [
  | inl h ↦ rw (h, names) refl
  | inr h ↦ rw (h, names) refl
]
classified c (d ∷ []) = elim (Bool-cases (c == 46 && d == 46)) [
  | inl h ↦ rw (h, names) refl
  | inr h ↦ rw (h, names) refl
]
classified c (d ∷ e ∷ cs) = refl

pub names-name :
    (c : ℕ) (cs : List ℕ) → IsName (c ∷ cs) → names (split (c ∷ cs)) ≡ named (c ∷ cs) ∷ []
unfolding names classify
names-name c cs w =
    let whole : names (split (c ∷ cs)) ≡ names ((c ∷ cs) ∷ []) =
      ap names (split-IsName (c ∷ cs) w) in
    whole ∙ classified c cs

-- Separators at the end name nothing.
pub names-Separators :
    (t seps : List ℕ) → Separators seps → names (split (t ++ seps)) ≡ names (split t)
unfolding names split classify
names-Separators t _ no_more = ap (λ l. names (split l)) (append_nil t)
names-Separators t _ (one_more cs w) =
    names-split t cs
    ∙ ap (λ l. names (split t) ++ l) (names-Separators [] cs w)
    ∙ append_nil (names (split t))

-- The root is before the first name only.
unfoldable pub is_root : Component → Bool
is_root root_dir = true
is_root c = false

pub is_root-named : (c : ℕ) (cs : List ℕ) → is_root (named (c ∷ cs)) ≡ false
unfolding is_root named
is_root-named c [] = elim (Bool-cases (c == 46)) [
  | inl h ↦ rw (h, named) refl
  | inr h ↦ rw (h, named) refl
]
is_root-named c (d ∷ []) = elim (Bool-cases (c == 46 && d == 46)) [
  | inl h ↦ rw (h, named) refl
  | inr h ↦ rw (h, named) refl
]
is_root-named c (d ∷ e ∷ cs) = refl

-- The components of a path that begins with `x`.
pub listing_head :
    (x : ℕ) (l m : List ℕ) (ns : List Component)
    → names (split (x ∷ l)) ≡ names (split (x ∷ m)) ++ ns
    → listing (x ∷ l) ≡ listing (x ∷ m) ++ ns
unfolding listing is_absolute
listing_head x l m ns e = elim (Bool-cases (x == path_separator)) [
  | inl h ↦ rw h (ap (λ k. root_dir ∷ k) e)
  | inr h ↦ rw h e
]

pub listing_relative : (x : ℕ) (l : List ℕ) → x ≢ 47 → listing (x ∷ l) ≡ names (split (x ∷ l))
unfolding listing is_absolute
listing_relative x l ne =
    let other : (x == path_separator) ≡ false = ground (arith, ne) in rw other refl

pub names-root : names (split (47 ∷ [])) ≡ names (split [])
unfolding names split classify
names-root = refl

pub names-nil : names (split []) ≡ []
unfolding names split classify
names-nil = refl

pub listing-nil : listing [] ≡ []
unfolding listing names split classify is_absolute
listing-nil = refl
