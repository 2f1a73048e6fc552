-- ===== src/IdAlloc/Ranges/Join.antt =====
-- Giving numbers back: `insert_free_range` and `return_range` against a recursion over the table.
use athera.Prelude.{
  ℕ, ◌+◌, ◌≤◌, ◌<◌, ◌≡◌, refl, ap, ◌∙◌, Bool, ◌&&◌, ◌||◌, ltb, leb, ◌==◌, if◌then◌else◌, arith,
  none, some, inl, inr, Bool-cases, Option-cases,
}
use athera.Prelude.BTreeMap.{
  empty, entry, get, insert, remove, last_below, get_below, last_below-none, last_below_bound,
  insert_front,
}
use athera.IdAlloc.Id.{next, id_max}
use athera.IdAlloc.Ranges.{Ranges, merge_before, merge_after, give_back, insert_free_range}
use athera.IdAlloc.Ranges.Spec.{
  is_free, IsRanges, IsRanges-weaken, IsRanges-IsOrdered, IsClear, IsClear-widen,
}

-- The table with `[a, b)` added, joined to the intervals that it touches.
unfoldable pub join : ℕ → ℕ → Ranges → Ranges
join a b empty = entry a b empty
join a b (entry s e m) =
    let touching = join s b m in
    let later = join a b m in
    if ltb b s
    then entry a b (entry s e m)
    else if b == s
    then entry a e m
    else if e == a
    then touching
    else entry s e later

pub join-IsRanges :
    (lo hi a b : ℕ) (m : Ranges)
    → IsRanges lo hi m
    → lo ≤ a
    → a < b
    → b ≤ hi
    → IsClear a b m
    → IsRanges lo hi (join a b m)
unfolding join
join-IsRanges lo hi a b empty r p q t c = (p, q, t, tt)
join-IsRanges lo hi a b (entry s e m) r p q t c = ground (
  arith,
  join-IsRanges lo hi s b m (IsRanges-weaken (e + 1) lo hi m (omega arith) r.3) r.0,
  join-IsRanges (e + 1) hi a b m r.3,
  IsClear-widen (e + 1) hi s e a b m r.3,
)

pub is_free-join :
    (lo hi a b i : ℕ) (m : Ranges)
    → IsRanges lo hi m
    → a < b
    → IsClear a b m
    → is_free i (join a b m) ≡ (is_free i m || (leb a i && ltb i b))
unfolding join is_free
is_free-join lo hi a b i empty r q c = ground arith
is_free-join lo hi a b i (entry s e m) r q c = ground (
  arith,
  is_free-join (e + 1) hi s b i m r.3,
  is_free-join (e + 1) hi a b i m r.3,
  IsClear-widen (e + 1) hi s e a b m r.3,
)

-- One interval more in front, before the new one: the search goes on in the rest.
merge_before-some :
    (a s e t u : ℕ) (m : Ranges)
    → last_below a m ≡ some (t, u)
    → s < a
    → s < t
    → merge_before a (entry s e m) ≡ ((merge_before a m).0, entry s e (merge_before a m).1)
unfolding merge_before last_below remove
merge_before-some a s e t u m h l k = ground arith

finish : ℕ → ℕ → Ranges → Ranges
finish b a' m' = insert a' (merge_after b m').0 (merge_after b m').1

merge_before_front :
    (a s e : ℕ) (m : Ranges) → a ≤ s → merge_before a (entry s e m) ≡ (a, entry s e m)
unfolding merge_before last_below
merge_before_front a s e m h = ground arith

finish_front :
    (a b s e : ℕ) (m : Ranges)
    → s < e
    → a < b
    → b ≤ s
    → get b m ≡ none
    → insert a e m ≡ entry a e m
    → finish b a (entry s e m) ≡ join a b (entry s e m)
unfolding finish merge_after remove get insert join
finish_front a b s e m r q k g f = ground arith

give_back_front :
    (lo hi a b s e : ℕ) (m : Ranges)
    → IsRanges lo hi (entry s e m)
    → a < b
    → a ≤ s
    → b ≤ s
    → give_back a b (entry s e m) ≡ join a b (entry s e m)
unfolding give_back finish
give_back_front lo hi a b s e m r q k l =
    ap (λ (p : ℕ × Ranges). finish b p.0 p.1) (merge_before_front a s e m k)
    ∙ finish_front a b s e m r.1 q l
        (get_below (e + 1) b m (omega arith) (IsRanges-IsOrdered (e + 1) hi m r.3))
        (insert_front (e + 1) a e m (omega arith) (IsRanges-IsOrdered (e + 1) hi m r.3))

give_back_last :
    (hi a b s e : ℕ) (m : Ranges)
    → IsRanges (e + 1) hi m
    → a < b
    → s < e
    → e ≤ a
    → last_below a m ≡ none
    → give_back s b m ≡ join s b m
    → give_back a b m ≡ join a b m
    → give_back a b (entry s e m) ≡ join a b (entry s e m)
unfolding give_back merge_before merge_after last_below remove get insert join
give_back_last hi a b s e m r q k l h ih ih' =
    ground (arith, last_below-none (e + 1) s m (omega arith) (IsRanges-IsOrdered (e + 1) hi m r))

finish-entry :
    (s e b a' : ℕ) (m' : Ranges)
    → s < a'
    → s < b
    → finish b a' (entry s e m') ≡ entry s e (finish b a' m')
unfolding finish merge_after remove get insert
finish-entry s e b a' m' h k = ground arith

merge_before_bound :
    (a s t u : ℕ) (m : Ranges)
    → last_below a m ≡ some (t, u)
    → s < t
    → t < a
    → s < (merge_before a m).0
unfolding merge_before
merge_before_bound a s t u m h k l = ground arith

give_back_later :
    (lo hi a b s e t u : ℕ) (m : Ranges)
    → IsRanges lo hi (entry s e m)
    → a < b
    → e ≤ a
    → last_below a m ≡ some (t, u)
    → (e + 1 ≤ t) × (t < a)
    → give_back a b m ≡ join a b m
    → give_back a b (entry s e m) ≡ join a b (entry s e m)
unfolding give_back finish join
give_back_later lo hi a b s e t u m r q l h bound ih =
    ap (λ (p : ℕ × Ranges). finish b p.0 p.1)
      (merge_before-some a s e t u m h (omega arith) (omega arith))
    ∙ finish-entry s e b (merge_before a m).0 (merge_before a m).1
        (merge_before_bound a s t u m h (omega arith) bound.1) (omega arith)
    ∙ ap (entry s e) ih
    ∙ ground arith

IsClear-low :
    (lo hi a b s : ℕ) (m : Ranges)
    → IsRanges lo hi m
    → last_below a m ≡ none
    → a < b
    → IsClear a b m
    → IsClear s b m
unfolding last_below
IsClear-low lo hi a b s empty r h q c = tt
IsClear-low lo hi a b s (entry j e m) r h q c =
    let ahead : a ≤ j = ahead_of (ltb a j) in
    (
      inr (ground arith),
      IsClear-low (e + 1) hi a b s m r.3
          (last_below-none (e + 1) a m (omega arith) (IsRanges-IsOrdered (e + 1) hi m r.3)) q c.1,
    )
  where
    ahead_of : Bool → a ≤ j
    ahead_of t = elim (Bool-cases (leb a j)) [
      | inl p ↦ ground arith
      | inr p ↦ elim (Option-cases (last_below a m)) [
        | inl e ↦ absurd (ground arith)
        | inr (x, e) ↦ absurd (ground arith)
      ]
    ]

-- On a well-formed table and a nonempty range none of whose numbers is free, `return_range` equals
-- the recursion `join`, which inserts the range in order and merges it with its neighbours.
pub give_back-eq-join :
    (lo hi a b : ℕ) (m : Ranges)
    → IsRanges lo hi m
    → a < b
    → IsClear a b m
    → give_back a b m ≡ join a b m
give_back-eq-join lo hi a b empty r q c =
    unfold give_back merge_before merge_after last_below get insert join in refl
give_back-eq-join lo hi a b (entry s e m) r q c = elim (Bool-cases (leb a s)) [
  | inl front ↦ give_back_front lo hi a b s e m r q (ground arith) (ground arith)
  | inr behind ↦
      let before : e ≤ a = ground arith in
      let later = give_back-eq-join (e + 1) hi a b m r.3 q c.1 in
      elim (Option-cases (last_below a m)) [
        | inl h ↦
            give_back_last hi a b s e m r.3 q r.1 before h
              (give_back-eq-join (e + 1) hi s b m r.3 (omega arith)
                (IsClear-low (e + 1) hi a b s m r.3 h q c.1))
              later
        | inr ((t, u), h) ↦
            give_back_later lo hi a b s e t u m r q before h
              (last_below_bound (e + 1) a t u m (IsRanges-IsOrdered (e + 1) hi m r.3) h) later
      ]
]

-- For an ID below `T::MAX` the release of one ID is the return of a range of length one.
pub insert_free_range_lem :
    (w n : ℕ) (m : Ranges) → n < id_max w → insert_free_range w m n ≡ give_back n (n + 1) m
unfolding insert_free_range give_back next
insert_free_range_lem w n m h = ground arith
