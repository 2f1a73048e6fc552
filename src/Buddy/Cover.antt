-- ===== src/Buddy/Cover.antt =====
-- The free memory of the buddy allocator: how many free blocks hold an address.
use athera.Prelude.{
  ℕ, zero, suc, ◌+◌, ◌^◌, ◌≤◌, ◌<◌, ◌≡◌, refl, sym, subst, ◌∙◌, some, ◌&&◌, List, [], ◌∷◌, length,
  length-set, get_or, set, ltb, leb, ◌==◌, arith, inl, inr, Bool-cases, Option-cases,
}
use athera.Prelude.Count.{to_nat}
use athera.Buddy.{remove, order_size, push, split_down}

-- The block of `size` bytes at `start` holds the address `a`.
unfoldable pub within : ℕ → ℕ → ℕ → ℕ
within a start size = to_nat (leb start a && ltb a (start + size))

-- How many blocks of a list of blocks of `size` bytes hold `a`.
unfoldable pub covers : ℕ → ℕ → List ℕ → ℕ
covers a size [] = 0
covers a size (x ∷ xs) = within a x size + covers a size xs

-- How many free blocks hold `a`, in the lists of order `i` and up.
unfoldable pub cover : ℕ → ℕ → List (List ℕ) → ℕ
cover a i [] = 0
cover a i (l ∷ ls) = covers a (order_size i) l + cover a (i + 1) ls

pub order_size-suc : (i : ℕ) → order_size (suc i) ≡ order_size i + order_size i
unfolding order_size
order_size-suc i = omega arith

pub order_size-pow : (i : ℕ) → order_size i ≡ 2 ^ (i + 12)
unfolding order_size
order_size-pow zero = refl
order_size-pow (suc i) =
    let more : suc i + 12 ≡ suc (i + 12) = omega arith in rw more (omega (arith, order_size-pow i))

-- A block is its lower and its upper half.
pub within-halves :
    (a start size : ℕ)
    → within a start (size + size) ≡ within a start size + within a (start + size) size
unfolding within
within-halves a start size = ground arith

pub covers-remove :
    (a size item : ℕ) (l left : List ℕ)
    → remove item l ≡ some left
    → covers a size left + within a item size ≡ covers a size l
unfolding remove covers
covers-remove a size item [] left e = absurd (ground (arith, e))
covers-remove a size item (x ∷ xs) left e = elim (Bool-cases (x == item)) [
  | inl h ↦
      let same : xs ≡ left = ground (arith, e, h) in
      let at : x ≡ item = ground arith in rw (sym same, at) (omega arith)
  | inr h ↦ elim (Option-cases (remove item xs)) [
    | inl q ↦ absurd (ground (arith, e, h, q))
    | inr (ys, q) ↦
        let same : x ∷ ys ≡ left = ground (arith, e, h, q) in
        rw⁻¹ same (omega (arith, covers-remove a size item xs ys q))
  ]
]

-- Writing one list moves the cover by that list alone.
pub cover-set :
    (a i j : ℕ) (ls : List (List ℕ)) (l : List ℕ)
    → j < length ls
    → cover a i (set ls j l) + covers a (order_size (i + j)) (get_or ls j [])
      ≡ cover a i ls + covers a (order_size (i + j)) l
unfolding cover
cover-set a i j [] l h = absurd (omega arith)
cover-set a i zero (x ∷ ls) l h = let at : i + 0 ≡ i = omega arith in rw at (omega arith)
cover-set a i (suc j) (x ∷ ls) l h =
    let at : i + suc j ≡ i + 1 + j = omega arith in
    rw at (omega (arith, cover-set a (i + 1) j ls l (omega arith)))

pub cover-push :
    (a : ℕ) (ls : List (List ℕ)) (j block : ℕ)
    → j < length ls
    → cover a 0 (push ls j block) ≡ cover a 0 ls + within a block (order_size j)
unfolding push covers
cover-push a ls j block h =
    let at : 0 + j ≡ j = omega arith in
    let s = cover-set a 0 j ls (block ∷ get_or ls j []) h in
    omega (
      arith,
      subst
          (λ n.
            cover a 0 (set ls j (block ∷ get_or ls j [])) + covers a (order_size n) (get_or ls j [])
            ≡ cover a 0 ls + covers a (order_size n) (block ∷ get_or ls j []))
          at s,
    )

pub length-push : (ls : List (List ℕ)) (j block : ℕ) → length (push ls j block) ≡ length ls
unfolding push
length-push ls j block = length-set ls j (block ∷ get_or ls j [])

pub length-split_down :
    (ls : List (List ℕ)) (chunk order j : ℕ) → length (split_down ls chunk order j) ≡ length ls
unfolding split_down
length-split_down ls chunk order zero = refl
length-split_down ls chunk order (suc j) =
    length-split_down (push ls (order + j) (chunk + order_size (order + j))) chunk order j
    ∙ length-push ls (order + j) (chunk + order_size (order + j))

-- Handing back the upper halves leaves the block of the order asked for.
pub cover-split_down :
    (a : ℕ) (ls : List (List ℕ)) (chunk order j : ℕ)
    → order + j ≤ length ls
    → cover a 0 (split_down ls chunk order j) + within a chunk (order_size order)
      ≡ cover a 0 ls + within a chunk (order_size (order + j))
unfolding split_down
cover-split_down a ls chunk order zero h = let at : order + 0 ≡ order = omega arith in rw at refl
cover-split_down a ls chunk order (suc j) h =
    let s = order_size (order + j) in
    let up = chunk + order_size (order + j) in
    let size = length-push ls (order + j) (chunk + order_size (order + j)) in
    let at : order + suc j ≡ suc (order + j) = omega arith in
    rw (at, order_size-suc (order + j))
      (omega (
        arith,
        cover-split_down a (push ls (order + j) (chunk + order_size (order + j))) chunk order j
            (omega (arith, size)),
        cover-push a ls (order + j) (chunk + order_size (order + j)) (omega arith),
        within-halves a chunk (order_size (order + j)),
      ))
