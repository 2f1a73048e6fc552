-- ===== src/Buddy/Alloc.antt =====
-- `alloc` takes one block out of the free memory.
use athera.Prelude.{
  ℕ, zero, suc, ◌+◌, ◌-◌, ◌≤◌, ◌<◌, ◌≡◌, refl, ap, ◌∙◌, Option, none, some, List, [], ◌∷◌, length,
  length-set, get_or, set, ltb, ltb→lt, arith, inl, inr, ◌⊎◌, Bool-cases,
}
use athera.Buddy.{BuddyAllocator, order_size, split_down, alloc_loop, alloc}
use athera.Buddy.Cover.{within, covers, cover, cover-set, cover-split_down, length-split_down}

-- `[start, start + size)` left the free memory of `ls`, which is now `ls'`.
pub record Takes (ls : List (List ℕ)) (start size : ℕ) (ls' : List (List ℕ)) : Type 0 where
  pub same_length : length ls' ≡ length ls
  pub taken : (a : ℕ) → cover a 0 ls' + within a start size ≡ cover a 0 ls

-- The answers of `alloc`, on the lists.
pub data Grants (ls : List (List ℕ)) (order : ℕ) : List (List ℕ) × Option ℕ → Type 0 where
  nothing : ((i : ℕ) → order ≤ i → get_or ls i [] ≡ []) → Grants ls order (ls, none)
  block :
      (chunk : ℕ) (ls' : List (List ℕ))
      → Takes ls chunk (order_size order) ls'
      → Grants ls order (ls', some chunk)

get_or_out : (ls : List (List ℕ)) (i : ℕ) → length ls ≤ i → get_or ls i [] ≡ []
get_or_out [] i h = refl
get_or_out (l ∷ ls) zero h = absurd (omega arith)
get_or_out (l ∷ ls) (suc i) h = get_or_out ls i (omega arith)

list_cases : (l : List ℕ) → (l ≡ []) ⊎ ((x : ℕ) × (xs : List ℕ) × (l ≡ x ∷ xs))
list_cases [] = inl refl
list_cases (x ∷ xs) = inr (x, xs, refl)

module _ (ls : List (List ℕ)) (order : ℕ) where
  popped :
      (i chunk : ℕ) (rest : List ℕ)
      → order + i < length ls
      → get_or ls (order + i) [] ≡ chunk ∷ rest
      → Takes ls chunk (order_size order) (split_down (set ls (order + i) rest) chunk order i)
  unfolding covers
  popped i chunk rest h e =
      let size = length-set ls (order + i) rest in
      let zero_on : 0 + (order + i) ≡ order + i = omega arith in
      record {
        same_length = length-split_down (set ls (order + i) rest) chunk order i ∙ size;
        taken = λ a.
            let split =
              cover-split_down a (set ls (order + i) rest) chunk order i (omega (arith, size)) in
            let moved = cover-set a 0 (order + i) ls rest h in
            omega (
              arith,
              split,
              moved,
              ap (λ n. covers a (order_size n) (get_or ls (order + i) [])) zero_on,
              ap (λ n. covers a (order_size n) rest) zero_on,
              ap (covers a (order_size (order + i))) e,
            );
      }

  alloc_loop-Grants :
      (k i : ℕ)
      → length ls ≤ order + i + k
      → (0 < k → order + i + k ≤ length ls)
      → ((j : ℕ) → order ≤ j → j < order + i → get_or ls j [] ≡ [])
      → Grants ls order (alloc_loop ls order k i)
  unfolding alloc_loop
  alloc_loop-Grants zero i all fits empty = Grants.nothing (λ j a.
      elim (Bool-cases (ltb j (order + i))) [
        | inl l ↦ empty j a (ltb→lt j (order + i) l)
        | inr g ↦ get_or_out ls j (ground arith)
      ])
  alloc_loop-Grants (suc k) i all fits empty =
      let inside = fits (omega arith) in
      elim (list_cases (get_or ls (order + i) [])) [
        | inl e ↦
            rw (e, alloc_loop)
              (alloc_loop-Grants k (i + 1) (omega arith) (λ p. omega (arith, inside))
                (λ j a b. elim (Bool-cases (ltb j (order + i))) [
                  | inl l ↦ empty j a (ltb→lt j (order + i) l)
                  | inr g ↦ let at : j ≡ order + i = ground arith in rw at e
                ]))
        | inr (chunk, rest, e) ↦
            rw (e, alloc_loop)
              (Grants.block chunk _ (popped i chunk rest (omega (arith, inside)) e))
      ]

-- `alloc` answers `None` only when no list of the order or above has a block. Otherwise it takes one
-- block of the order's size out of the free memory: an address in it was in one free block more
-- before, and every other address is in as many as before.
pub alloc-Grants :
    (b : BuddyAllocator) (order : ℕ)
    → Grants b.free_list order ((alloc b order).0.free_list, (alloc b order).1)
unfolding alloc
alloc-Grants b order =
    alloc_loop-Grants b.free_list order (length b.free_list - order) 0 (omega arith)
      (λ p. omega arith) (λ j a c. absurd (omega arith))
