-- ===== src/IdAlloc/Ranges/Cut.antt =====
-- Taking numbers out: `alloc_at` and `carve` against a recursion over the table.
use athera.Prelude.{
  ℕ, suc, ◌+◌, ◌≤◌, ◌<◌, ◌≡◌, refl, sym, ap, ◌∙◌, Bool, true, false, not, ◌&&◌, ◌||◌, ltb, leb,
  if◌then◌else◌, arith, none, some, inl, inr, Bool-cases, Option-cases,
}
use athera.Prelude.BTreeMap.{
  empty, entry, insert, remove, last_below, last_below_bound, insert_front,
}
use athera.IdAlloc.Ranges.{Ranges, split}
use athera.IdAlloc.Ranges.Spec.{
  is_free, is_free_below, IsRanges, IsRanges-weaken, IsRanges-IsOrdered,
}

-- The table without `[a, b)`, which lies in one interval.
unfoldable pub cut : ℕ → ℕ → Ranges → Ranges
cut a b empty = empty
cut a b (entry s e m) =
    let later = cut a b m in
    if leb s a && leb b e
    then (let right = if ltb b e then entry b e m else m in
        if ltb s a then entry s a right else right)
    else entry s e later

-- Some interval holds all of `[a, b)`.
unfoldable pub holds : ℕ → ℕ → Ranges → Bool
holds a b empty = false
holds a b (entry s e m) = (leb s a && leb b e) || holds a b m

pub holds_bound :
    (lo hi a b : ℕ) (m : Ranges) → IsRanges lo hi m → holds a b m ≡ true → (lo ≤ a) × (b ≤ hi)
unfolding holds
holds_bound lo hi a b empty r h = ground arith
holds_bound lo hi a b (entry s e m) r h = ground (arith, holds_bound (e + 1) hi a b m r.3)

pub cut-IsRanges :
    (lo hi a b : ℕ) (m : Ranges) → IsRanges lo hi m → a < b → IsRanges lo hi (cut a b m)
unfolding cut
cut-IsRanges lo hi a b empty r q = tt
cut-IsRanges lo hi a b (entry s e m) r q = ground (
  arith,
  cut-IsRanges (e + 1) hi a b m r.3 q,
  IsRanges-weaken (e + 1) (a + 1) hi m,
  IsRanges-weaken (e + 1) lo hi m,
)

pub is_free-cut :
    (lo hi a b i : ℕ) (m : Ranges)
    → IsRanges lo hi m
    → a < b
    → holds a b m ≡ true
    → is_free i (cut a b m) ≡ (is_free i m && not (leb a i && ltb i b))
unfolding cut is_free holds
is_free-cut lo hi a b i empty r q h = ground arith
is_free-cut lo hi a b i (entry s e m) r q h = ground (
  arith,
  is_free-cut (e + 1) hi a b i m r.3 q,
  is_free_below (e + 1) hi i m r.3,
  holds_bound (e + 1) hi a b m r.3,
)

-- One interval holds the range exactly when all its numbers are free: the table is merged.
pub holds_free :
    (lo hi a b : ℕ) (m : Ranges)
    → IsRanges lo hi m
    → a < b
    → ((i : ℕ) → a ≤ i → i < b → is_free i m ≡ true)
    → holds a b m ≡ true
unfolding is_free holds
holds_free lo hi a b empty r q f = ground (arith, f a (omega arith) q)
holds_free lo hi a b (entry s e m) r q f = elim (Bool-cases (ltb e a)) [
  | inl later ↦ ground (arith, holds_free (e + 1) hi a b m r.3 q (λ i p l. ground (arith, f i p l)))
  | inr here ↦ ground (
    arith,
    f a (omega arith) q,
    f e,
    is_free_below (e + 1) hi a m r.3,
    is_free_below (e + 1) hi e m r.3,
  )
]

pub free_of_holds :
    (lo hi a b i : ℕ) (m : Ranges) → holds a b m ≡ true → a ≤ i → i < b → is_free i m ≡ true
unfolding is_free holds
free_of_holds lo hi a b i empty h p q = ground arith
free_of_holds lo hi a b i (entry s e m) h p q = ground (arith, free_of_holds lo hi a b i m)

pub holds-none :
    (lo hi a b : ℕ) (m : Ranges)
    → IsRanges lo hi m
    → last_below (suc a) m ≡ none
    → holds a b m ≡ false
unfolding holds last_below
holds-none lo hi a b empty r h = refl
holds-none lo hi a b (entry s e m) r h = elim (Option-cases (last_below (suc a) m)) [
  | inl n ↦ ground (arith, holds_bound (e + 1) hi a b m r.3, holds-none (e + 1) hi a b m r.3 n)
  | inr (x, n) ↦ ground (arith, holds_bound (e + 1) hi a b m r.3)
]

-- The last interval that starts at or before `a`, if any holds the range, is the one that does.
pub holds-last_below :
    (lo hi a b s e : ℕ) (m : Ranges)
    → IsRanges lo hi m
    → a < b
    → last_below (suc a) m ≡ some (s, e)
    → holds a b m ≡ leb b e
unfolding holds last_below
holds-last_below lo hi a b s e empty r q h = ground arith
holds-last_below lo hi a b s e (entry s' e' m) r q h = elim (Option-cases (last_below (suc a) m)) [
  | inl n ↦ ground (arith, holds-none (e' + 1) hi a b m r.3 n)
  | inr ((t, u), n) ↦ ground (
    arith,
    holds-last_below (e' + 1) hi a b t u m r.3 q n,
    last_below_bound (e' + 1) (suc a) t u m (IsRanges-IsOrdered (e' + 1) hi m r.3) n,
  )
]

-- Both pass an interval that ends before the range.
split-entry :
    (a b s e s' e' : ℕ) (m : Ranges)
    → s' < s
    → s' < a
    → s' < b
    → split a b s e (entry s' e' m) ≡ entry s' e' (split a b s e m)
unfolding split remove insert
split-entry a b s e s' e' m h k l = ground arith

cut-entry : (a b s e : ℕ) (m : Ranges) → e < b → cut a b (entry s e m) ≡ entry s e (cut a b m)
unfolding cut
cut-entry a b s e m h = ground arith

found_later :
    (a s e s' e' t u : ℕ) (m : Ranges)
    → last_below (suc a) m ≡ some (t, u)
    → s' < t
    → t < suc a
    → last_below (suc a) (entry s' e' m) ≡ some (s, e)
    → (s ≡ t) × (e ≡ u)
unfolding last_below
found_later a s e s' e' t u m h k l n = ground arith

-- What the code leaves of the interval that it finds.
pub split-eq-cut :
    (lo hi a b s e : ℕ) (m : Ranges)
    → IsRanges lo hi m
    → a < b
    → last_below (suc a) m ≡ some (s, e)
    → b ≤ e
    → split a b s e m ≡ cut a b m
unfolding split cut last_below remove insert
split-eq-cut lo hi a b s e empty r q h l = absurd (ground arith)
split-eq-cut lo hi a b s e (entry s' e' m) r q h l = elim (Option-cases (last_below (suc a) m)) [
  | inl n ↦
      let ordered = IsRanges-IsOrdered (e' + 1) hi m r.3 in
      ground
        (arith, insert_front (e' + 1) s' a m (omega arith) ordered, insert_front (e' + 1) b e' m)
  | inr ((t, u), n) ↦
      let bound =
        last_below_bound (e' + 1) (suc a) t u m (IsRanges-IsOrdered (e' + 1) hi m r.3) n in
      let same = found_later a s e s' e' t u m n (omega arith) bound.1 h in
      split-entry a b s e s' e' m (omega arith) (omega arith) (omega arith)
      ∙ ap (entry s' e') (split-eq-cut (e' + 1) hi a b s e m r.3 q (rw (same.0, same.1) n) l)
      ∙ sym (cut-entry a b s' e' m (omega arith))
]
