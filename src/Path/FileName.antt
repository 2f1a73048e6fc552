-- ===== src/Path/FileName.antt =====
-- The file name of a path that a name was pushed to or set on.
use athera.Prelude.{
  ℕ, suc, ◌+◌, ◌≡◌, refl, sym, ap, ◌∙◌, none, some, true, false, not, ◌&&◌, List, [], ◌∷◌, ◌++◌,
  length, length-append, drop, ltb, ◌==◌, arith, inl, inr, Bool-cases, Option-cases,
}
use athera.Path.{
  is_absolute, is_empty, ends_with_separator, push, trim_end, rfind, path_separator, parent,
  last_name, file_name, set_file_name,
}
use athera.Path.Push.{append_assoc, chop, empty_nil}
use athera.Path.Names.{IsName, end_of, more}

empty-append : (p : List ℕ) (c : ℕ) (cs : List ℕ) → is_empty (p ++ (c ∷ cs)) ≡ false
unfolding is_empty
empty-append [] c cs = refl
empty-append (x ∷ p) c cs = refl

-- A path that ends in a name is not trimmed.
trim_end-name : (c : ℕ) (cs : List ℕ) → IsName (c ∷ cs) → trim_end (c ∷ cs) ≡ c ∷ cs
unfolding trim_end is_empty
trim_end-name c [] (more _ _ ne w) =
    let other : (c == path_separator) ≡ false = ground (arith, ne) in rw other refl
trim_end-name c (d ∷ cs) (more _ _ ne w) =
    let other : (c == path_separator) ≡ false = ground (arith, ne) in
    rw (other, trim_end-name d cs w) refl

trim_end-append :
    (p : List ℕ) (c : ℕ) (cs : List ℕ) → IsName (c ∷ cs) → trim_end (p ++ (c ∷ cs)) ≡ p ++ (c ∷ cs)
unfolding trim_end
trim_end-append [] c cs w = trim_end-name c cs w
trim_end-append (x ∷ p) c cs w = rw (trim_end-append p c cs w) (ground (arith, empty-append p c cs))

rfind-name : (b : List ℕ) → IsName b → rfind 47 b ≡ none
unfolding rfind
rfind-name _ end_of = refl
rfind-name _ (more c cs ne w) =
    let other : (c == 47) ≡ false = ground (arith, ne) in rw (rfind-name cs w, other) refl

rfind-append : (a b : List ℕ) → IsName b → rfind 47 (a ++ (47 ∷ b)) ≡ some (length a)
unfolding rfind
rfind-append [] b w = rw (rfind-name b w) refl
rfind-append (x ∷ a) b w = rw (rfind-append a b w) refl

drop-append : (a b : List ℕ) → drop (length a + 1) (a ++ (47 ∷ b)) ≡ b
drop-append [] b = refl
drop-append (x ∷ a) b =
    let more : length (x ∷ a) + 1 ≡ suc (length a + 1) = omega arith in
    ap (λ n. drop n (x ∷ a ++ (47 ∷ b))) more ∙ drop-append a b

-- The file name of a path that is one name.
file_name-name : (c : ℕ) (cs : List ℕ) → IsName (c ∷ cs) → file_name (c ∷ cs) ≡ some (c ∷ cs)
unfolding file_name last_name is_empty
file_name-name c cs w =
    ap last_name (trim_end-name c cs w) ∙ rw (rfind-name (c ∷ cs) w, last_name) refl

-- The file name of a path that ends in a separator and a name.
file_name-append :
    (a : List ℕ) (c : ℕ) (cs : List ℕ)
    → IsName (c ∷ cs)
    → file_name (a ++ (47 ∷ c ∷ cs)) ≡ some (c ∷ cs)
unfolding file_name last_name
file_name-append a c cs w =
    let whole : a ++ (47 ∷ c ∷ cs) ≡ (a ++ (47 ∷ [])) ++ (c ∷ cs) =
      sym (append_assoc a (47 ∷ []) (c ∷ cs)) in
    let kept : trim_end (a ++ (47 ∷ c ∷ cs)) ≡ a ++ (47 ∷ c ∷ cs) =
      ap trim_end whole ∙ trim_end-append (a ++ (47 ∷ [])) c cs w ∙ sym whole in
    let inside : ltb (length a + 1) (length (a ++ (47 ∷ c ∷ cs))) ≡ true =
      ground (arith, length-append a (47 ∷ c ∷ cs)) in
    ap last_name kept
    ∙ rw (rfind-append a (c ∷ cs) w, inside, last_name) (ap some (drop-append a (c ∷ cs)))

-- A path that is empty or ends in a separator, and then a name.
file_name-joined :
    (p : List ℕ) (c : ℕ) (cs : List ℕ)
    → IsName (c ∷ cs)
    → (not (is_empty p) && not (ends_with_separator p)) ≡ false
    → file_name (p ++ (c ∷ cs)) ≡ some (c ∷ cs)
file_name-joined p c cs w h = elim (Bool-cases (is_empty p)) [
  | inl e ↦ ap (λ l. file_name (l ++ (c ∷ cs))) (empty_nil p e) ∙ file_name-name c cs w
  | inr e ↦
      let (t, q) = chop p (ground (arith, h, e)) in
      ap (λ l. file_name (l ++ (c ∷ cs))) q
      ∙ ap file_name (append_assoc t (47 ∷ []) (c ∷ cs))
      ∙ file_name-append t c cs w
]

-- `file_name` answers the name that was pushed last.
file_name-push :
    (buf : List ℕ) (c : ℕ) (cs : List ℕ)
    → IsName (c ∷ cs)
    → file_name (push buf (c ∷ cs)) ≡ some (c ∷ cs)
unfolding push is_absolute is_empty
file_name-push buf c cs (more _ _ ne w) =
    let relative : (c == path_separator) ≡ false = ground (arith, ne) in
    elim (Bool-cases (not (is_empty buf) && not (ends_with_separator buf))) [
      | inl h ↦ rw (relative, h) (file_name-append buf c cs (more c cs ne w))
      | inr h ↦ rw (relative, h) (file_name-joined buf c cs (more c cs ne w) h)
    ]

-- `file_name` answers the name that `set_file_name` has set, whatever the path was.
pub file_name-set_file_name :
    (buf : List ℕ) (c : ℕ) (cs : List ℕ)
    → IsName (c ∷ cs)
    → file_name (set_file_name buf (c ∷ cs)) ≡ some (c ∷ cs)
unfolding set_file_name
file_name-set_file_name buf c cs w = elim (Option-cases (parent buf)) [
  | inl e ↦ elim (Bool-cases (is_absolute buf)) [
    | inl a ↦ rw (e, a, set_file_name) (file_name-append [] c cs w)
    | inr a ↦ rw (e, a, set_file_name) (file_name-name c cs w)
  ]
  | inr (p, e) ↦ elim (Bool-cases (not (is_empty p) && not (ends_with_separator p))) [
    | inl h ↦ rw (e, h, set_file_name) (file_name-append p c cs w)
    | inr h ↦ rw (e, h, set_file_name) (file_name-joined p c cs w h)
  ]
]
