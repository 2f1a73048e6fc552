-- ===== src/Buddy/Dealloc.antt =====
-- `dealloc` gives one block back to the free memory and merges it with its buddies. At the highest
-- order a merge takes the buddy out of its list and does not put it back.
use athera.Prelude.{
  ℕ, zero, suc, ◌+◌, ◌-◌, ◌<◌, ◌≡◌, ◌≢◌, refl, sym, ap, subst, ◌∙◌, some, List, [], ◌∷◌, length,
  length-set, get_or, set, leb, arith, inl, inr, Bool-cases, Option-cases,
}
use athera.Buddy.{
  BuddyAllocator, buddy_max_order, remove, order_size, buddy_address, push, merge, dealloc,
}
use athera.Buddy.Cover.{
  within, covers, cover, order_size-suc, within-halves, covers-remove, cover-set, cover-push,
  length-push,
}
use athera.Buddy.Pairs.{IsAligned, lower_of, buddy-Pairs}

-- What the loop of `dealloc` returns for the block of order `i` at `ptr`.
data Merges (ls : List (List ℕ)) (ptr i : ℕ) : List (List ℕ) × ℕ × ℕ → Type 0 where
  merged :
      (ls' : List (List ℕ)) (ptr' order : ℕ)
      → length ls' ≡ length ls
      → order < buddy_max_order
      → ((a : ℕ)
          → cover a 0 ls' + within a ptr' (order_size order)
            ≡ cover a 0 ls + within a ptr (order_size i))
      → Merges ls ptr i (ls', ptr', order)
  -- The two blocks of the highest order at `ptr'` and at `ptr' + size` are out of the lists.
  topped :
      (ls' : List (List ℕ)) (ptr' : ℕ)
      → length ls' ≡ length ls
      → get_or ls 10 [] ≢ []
      → ((a : ℕ)
          → cover a 0 ls' + within a ptr' (order_size buddy_max_order)
            ≡ cover a 0 ls + within a ptr (order_size i))
      → Merges ls ptr i (ls', ptr', buddy_max_order - 1)

-- A merge with the buddy at one order, before the loop goes on.
joined :
    (ls : List (List ℕ)) (ptr i : ℕ) (left : List ℕ)
    → i < length ls
    → IsAligned ptr i
    → remove (buddy_address ptr i) (get_or ls i []) ≡ some left
    → (a : ℕ)
    → cover a 0 (set ls i left) + within a (lower_of ptr i) (order_size (suc i))
      ≡ cover a 0 ls + within a ptr (order_size i)
joined ls ptr i left h al e a =
    let p = buddy-Pairs ptr i al in
    let on : 0 + i ≡ i = omega arith in
    omega (
      arith,
      p.together a,
      covers-remove a (order_size i) (buddy_address ptr i) (get_or ls i []) left e,
      subst
          (λ n.
            cover a 0 (set ls i left) + covers a (order_size n) (get_or ls i [])
            ≡ cover a 0 ls + covers a (order_size n) left)
          on (cover-set a 0 i ls left h),
    )

get_or-set_ne :
    (ls : List (List ℕ)) (k j : ℕ) (l : List ℕ) → k ≢ j → get_or (set ls k l) j [] ≡ get_or ls j []
get_or-set_ne [] k j l h = refl
get_or-set_ne (x ∷ ls) zero zero l h = absurd (h refl)
get_or-set_ne (x ∷ ls) zero (suc j) l h = refl
get_or-set_ne (x ∷ ls) (suc k) zero l h = refl
get_or-set_ne (x ∷ ls) (suc k) (suc j) l h = get_or-set_ne ls k j l (λ e. h (ap suc e))

-- A list from which a block was removed had one.
removed_from :
    (ls : List (List ℕ)) (ptr i : ℕ) (left : List ℕ)
    → i ≡ 10
    → remove (buddy_address ptr i) (get_or ls i []) ≡ some left
    → get_or ls 10 [] ≢ []
unfolding remove
removed_from ls ptr i left at e q =
    let here : get_or ls i [] ≡ [] = ap (λ n. get_or ls n []) at ∙ q in
    absurd (ground (arith, sym e ∙ ap (remove (buddy_address ptr i)) here))

goes_on :
    (ls mid : List (List ℕ)) (ptr lower i : ℕ) (r : List (List ℕ) × ℕ × ℕ)
    → length mid ≡ length ls
    → (get_or mid 10 [] ≢ [] → get_or ls 10 [] ≢ [])
    → ((a : ℕ)
        → cover a 0 mid + within a lower (order_size (i + 1))
          ≡ cover a 0 ls + within a ptr (order_size i))
    → Merges mid lower (i + 1) r
    → Merges ls ptr i r
goes_on ls mid ptr lower i _ same high now (Merges.merged ls' ptr' order l h c) =
    Merges.merged ls' ptr' order (l ∙ same) h (λ a. omega (arith, c a, now a))
goes_on ls mid ptr lower i _ same high now (Merges.topped ls' ptr' l f c) =
    Merges.topped ls' ptr' (l ∙ same) (high f) (λ a. omega (arith, c a, now a))

merge-Merges :
    (ls : List (List ℕ)) (k i ptr : ℕ)
    → length ls ≡ buddy_max_order
    → i + k ≡ buddy_max_order
    → 0 < k
    → IsAligned ptr i
    → Merges ls ptr i (merge ls k i ptr)
unfolding merge
merge-Merges ls zero i ptr size sum pos al = absurd (omega arith)
merge-Merges ls (suc k) i ptr size sum pos al =
    elim (Option-cases (remove (buddy_address ptr i) (get_or ls i []))) [
      | inl e ↦ rw (e, merge) (Merges.merged ls ptr i refl (omega arith) (λ a. refl))
      | inr (left, e) ↦
          let now = joined ls ptr i left (omega arith) al e in
          let same = length-set ls i left in
          elim (Bool-cases (leb 11 (i + 1))) [
            | inl top ↦
                let at : suc i ≡ buddy_max_order = ground (arith, sum) in
                rw (e, merge)
                  (rw top (
                    Merges.topped (set ls i left) (lower_of ptr i) same
                      (removed_from ls ptr i left (ground (arith, sum)) e)
                      (λ a.
                        subst
                          (λ n.
                            cover a 0 (set ls i left) + within a (lower_of ptr i) (order_size n)
                            ≡ cover a 0 ls + within a ptr (order_size i))
                          at (now a))))
            | inr on ↦
                let at : suc i ≡ i + 1 = omega arith in
                let next =
                  subst (λ n. IsAligned (lower_of ptr i) n) at (buddy-Pairs ptr i al).aligned in
                rw (e, merge)
                  (rw on (
                    goes_on ls (set ls i left) ptr (lower_of ptr i) i _ same
                      (λ f q. f (get_or-set_ne ls i 10 left (ground (arith, on)) ∙ q))
                      (λ a.
                        subst
                          (λ n.
                            cover a 0 (set ls i left) + within a (lower_of ptr i) (order_size n)
                            ≡ cover a 0 ls + within a ptr (order_size i))
                          at (now a))
                      (merge-Merges (set ls i left) k (i + 1) (lower_of ptr i) (same ∙ size)
                        (omega arith) (ground (arith, sum)) next)))
          ]
    ]

-- The answers of `dealloc`, on the lists.
pub data Frees (ls : List (List ℕ)) (start order : ℕ) : List (List ℕ) → Type 0 where
  given_back :
      (ls' : List (List ℕ))
      → length ls' ≡ length ls
      → ((a : ℕ) → cover a 0 ls' ≡ cover a 0 ls + within a start (order_size order))
      → Frees ls start order ls'
  -- A block of the highest order was free, and such a block, at `lost`, is in no list any more.
  leaked :
      (ls' : List (List ℕ)) (lost : ℕ)
      → length ls' ≡ length ls
      → get_or ls 10 [] ≢ []
      → ((a : ℕ)
          → cover a 0 ls' + within a lost (order_size (buddy_max_order - 1))
            ≡ cover a 0 ls + within a start (order_size order))
      → Frees ls start order ls'

pushed :
    (ls : List (List ℕ)) (start order : ℕ) (r : List (List ℕ) × ℕ × ℕ)
    → length ls ≡ buddy_max_order
    → Merges ls start order r
    → Frees ls start order (push (r.0) (r.2) (r.1))
pushed ls start order _ size (Merges.merged ls' ptr i l h c) =
    Frees.given_back _ (length-push ls' i ptr ∙ l)
      (λ a. omega (arith, c a, cover-push a ls' i ptr (omega (arith, l, size, h))))
pushed ls start order _ size (Merges.topped ls' ptr l f c) =
    Frees.leaked _ (ptr + order_size 10) (length-push ls' 10 ptr ∙ l) f (λ a. omega (
      arith,
      c a,
      cover-push a ls' 10 ptr (omega (arith, l, size)),
      within-halves a ptr (order_size 10),
      ap (within a ptr) (order_size-suc 10),
    ))

-- `dealloc` of an aligned block, on the allocator's eleven lists, either adds the block to the free
-- memory and changes nothing else of it, or, only if a block of the highest order is free, merges up
-- to it and loses one block of that order on the way.
pub dealloc-Frees :
    (b : BuddyAllocator) (start order : ℕ)
    → length b.free_list ≡ buddy_max_order
    → order < buddy_max_order
    → IsAligned start order
    → Frees b.free_list start order ((dealloc b start order).free_list)
unfolding dealloc
dealloc-Frees b start order size h al = pushed b.free_list start order _ size (
    merge-Merges b.free_list (buddy_max_order - order) order start size (omega arith) (omega arith)
      al)
