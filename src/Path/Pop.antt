-- ===== src/Path/Pop.antt =====
-- `pop` and `file_name` on the components of a path.
use athera.Prelude.{
  ℕ, suc, ◌≡◌, ◌≢◌, refl, sym, ap, subst, ◌∙◌, Option, none, some, Bool, true, false, List, [], ◌∷◌,
  ◌++◌, length, length-append, get_or, take, drop, ◌==◌, if◌then◌else◌, arith, inl, inr, Bool-cases,
}
use athera.Path.{Component, is_absolute, is_empty, ends_with_separator, push, split, trim_end, pop}
use athera.Path.Push.{names, listing, names-split, append_assoc, listing-push}
use athera.Path.Names.{
  IsName, more, Separators, Trims, trims, trim_end-Trims, ends_with_separator-trim_end,
  ends_with_separator-append, Finds, nowhere, at, rfind-Finds, named, names-name, names-Separators,
  is_root, is_root-named, listing_head, listing_relative, names-root, names-nil, listing-nil,
}

-- What `pop` answers.
pub data Pops (s : List ℕ) : List ℕ × Bool → Type 0 where
  popped : (s' : List ℕ) (c : Component) → listing s ≡ listing s' ++ (c ∷ []) → Pops s (s', true)
  nothing : names (split s) ≡ [] → Pops s (s, false)

take-length : (a r : List ℕ) → take (length a) (a ++ r) ≡ a
take-length [] r = refl
take-length (c ∷ a) r = ap (λ l. c ∷ l) (take-length a r)

-- The names of a path whose last name is `b`.
names-last :
    (a seps b : List ℕ)
    → Separators seps
    → IsName b
    → b ≢ []
    → names (split ((a ++ (47 ∷ b)) ++ seps)) ≡ names (split a) ++ (named b ∷ [])
names-last a seps [] w n ne = absurd (ne refl)
names-last a seps (d ∷ b) w n ne =
    names-Separators (a ++ (47 ∷ d ∷ b)) seps w
    ∙ names-split a (d ∷ b)
    ∙ ap (λ l. names (split a) ++ l) (names-name d b n)

-- The path up to its last separator, of which the root keeps it.
cut :
    (a seps b : List ℕ)
    → Separators seps
    → IsName b
    → b ≢ []
    → Pops
        ((a ++ (47 ∷ b)) ++ seps)
        (take (if length a == 0 then 1 else length a) ((a ++ (47 ∷ b)) ++ seps), true)
cut [] seps b w n ne = popped (47 ∷ []) (named b) (
    listing_head 47 (b ++ seps) [] (named b ∷ [])
      (names-last [] seps b w n ne ∙ ap (λ l. l ++ (named b ∷ [])) (sym names-root)))
cut (x ∷ a) seps b w n ne =
    let far : (suc (length a) == 0) ≡ false = ground arith in
    let front : take (length (x ∷ a)) (((x ∷ a) ++ (47 ∷ b)) ++ seps) ≡ x ∷ a =
      ap (take (length (x ∷ a))) (append_assoc (x ∷ a) (47 ∷ b) seps)
      ∙ take-length (x ∷ a) ((47 ∷ b) ++ seps) in
    rw (far, front)
      (popped (x ∷ a) (named b) (
        listing_head x ((a ++ (47 ∷ b)) ++ seps) a (named b ∷ [])
          (names-last (x ∷ a) seps b w n ne)))

-- A path of one name.
alone :
    (d : ℕ) (t seps : List ℕ)
    → Separators seps
    → IsName (d ∷ t)
    → listing ((d ∷ t) ++ seps) ≡ named (d ∷ t) ∷ []
alone d t seps w (more _ _ ne n) =
    listing_relative d (t ++ seps) ne
    ∙ names-Separators (d ∷ t) seps w
    ∙ names-name d t (more d t ne n)

not_nil : (a b : List ℕ) → ends_with_separator (a ++ (47 ∷ b)) ≡ false → b ≢ []
not_nil a b h e =
    let ends = ap (λ l. ends_with_separator (a ++ (47 ∷ l))) e ∙ ends_with_separator-append a in
    ground (arith, sym h ∙ ends)

trimmed :
    (t seps : List ℕ) (o : Option ℕ)
    → Separators seps
    → ends_with_separator t ≡ false
    → Finds t o
    → Pops (t ++ seps) (
        if is_empty t then (t ++ seps, false) else elim o [
          | none ↦ ([], true)
          | some pos ↦ (take (if pos == 0 then 1 else pos) (t ++ seps), true)
        ])
unfolding is_empty
trimmed [] seps o w h f = nothing (names-Separators [] seps w ∙ names-nil)
trimmed (d ∷ t) seps _ w h (nowhere n) =
    popped [] (named (d ∷ t))
      (alone d t seps w n ∙ ap (λ l. l ++ (named (d ∷ t) ∷ [])) (sym listing-nil))
trimmed (d ∷ t) seps _ w h (at a b e n) =
    let ne = not_nil a b (ap ends_with_separator e ∙ h) in
    subst (λ l. Pops (l ++ seps) (take (if length a == 0 then 1 else length a) (l ++ seps), true)) e
      (cut a seps b w n ne)

-- `pop` takes the last component off, whatever separators stand behind it, and answers false only
-- for a path that has no name, which it leaves as it is.
pub pop-Pops : (s : List ℕ) → Pops s (pop s)
unfolding pop
pop-Pops s =
    restored (trim_end s) (trim_end-Trims s) (rfind-Finds (trim_end s))
      (ends_with_separator-trim_end s)
  where
    restored :
        (t : List ℕ) {o : Option ℕ}
        → Trims s t
        → Finds t o
        → ends_with_separator t ≡ false
        → Pops s (
            if is_empty t then (s, false) else elim o [
              | none ↦ ([], true)
              | some pos ↦ (take (if pos == 0 then 1 else pos) s, true)
            ])
    restored t {o = o} (trims seps w e) f h =
        subst
          (λ l. Pops l (
            if is_empty t then (l, false) else elim o [
              | none ↦ ([], true)
              | some pos ↦ (take (if pos == 0 then 1 else pos) l, true)
            ]))
          (sym e) (trimmed t seps o w h f)

append_last : (xs ys : List Component) (c d : Component) → xs ++ (c ∷ []) ≡ ys ++ (d ∷ []) → xs ≡ ys
append_last [] [] c d e = refl
append_last [] (y ∷ ys) c d e = absurd (longer ys (ap length e))
  where
    longer : (ys : List Component) → 1 ≡ suc (length (ys ++ (d ∷ []))) → ⊥
    longer ys h = omega (arith, length-append ys (d ∷ []))
append_last (x ∷ xs) [] c d e = absurd (longer xs (ap length e))
  where
    longer : (xs : List Component) → suc (length (xs ++ (c ∷ []))) ≡ 1 → ⊥
    longer xs h = omega (arith, length-append xs (c ∷ []))
append_last (x ∷ xs) (y ∷ ys) c d e =
    let head : x ≡ y = ap (λ l. get_or l 0 c) e in
    let tail = append_last xs ys c d (ap (drop 1) e) in ap (λ z. z ∷ xs) head ∙ ap (λ l. y ∷ l) tail

unfoldable ends_in_root : List Component → Bool
ends_in_root [] = true
ends_in_root (c ∷ []) = is_root c
ends_in_root (c ∷ d ∷ cs) = ends_in_root (d ∷ cs)

ends_in_root-append :
    (xs : List Component) (c : Component) → ends_in_root (xs ++ (c ∷ [])) ≡ is_root c
unfolding ends_in_root
ends_in_root-append [] c = refl
ends_in_root-append (x ∷ []) c = refl
ends_in_root-append (x ∷ y ∷ xs) c = ends_in_root-append (y ∷ xs) c

-- A path without a name is at most the root.
unnamed : (s : List ℕ) → names (split s) ≡ [] → ends_in_root (listing s) ≡ true
unfolding listing ends_in_root is_root
unnamed s h = elim (Bool-cases (is_absolute s)) [ inl a ↦ rw (a, h) refl | inr a ↦ rw (a, h) refl ]

pushed_name :
    (buf : List ℕ) (c : ℕ) (cs : List ℕ)
    → IsName (c ∷ cs)
    → listing (push buf (c ∷ cs)) ≡ listing buf ++ (named (c ∷ cs) ∷ [])
unfolding is_absolute
pushed_name buf c cs (more _ _ ne w) =
    let relative : is_absolute (c ∷ cs) ≡ false = ground (arith, ne) in
    let name : listing (c ∷ cs) ≡ named (c ∷ cs) ∷ [] =
      listing_relative c cs ne ∙ names-name c cs (more c cs ne w) in
    let both = listing-push buf (c ∷ cs) in both ∙ rw (relative, name) refl

-- `pop` undoes the `push` of a name, whatever the buffer is: the components are again those of the
-- buffer.
pub pop-push :
    (buf : List ℕ) (c : ℕ) (cs : List ℕ)
    → IsName (c ∷ cs)
    → listing ((pop (push buf (c ∷ cs))).0) ≡ listing buf
pop-push buf c cs w =
    undone (push buf (c ∷ cs)) (pushed_name buf c cs w) (pop-Pops (push buf (c ∷ cs)))
  where
    undone :
        (s : List ℕ) {r : List ℕ × Bool}
        → listing s ≡ listing buf ++ (named (c ∷ cs) ∷ [])
        → Pops s r
        → listing (r.0) ≡ listing buf
    undone s e (popped s' d h) =
        append_last (listing s') (listing buf) d (named (c ∷ cs)) (sym h ∙ e)
    undone s e (nothing h) =
        let root = sym (ap ends_in_root e) ∙ unnamed s h in
        let not_root = ends_in_root-append (listing buf) (named (c ∷ cs)) ∙ is_root-named c cs in
        absurd (ground (arith, sym root ∙ not_root))
