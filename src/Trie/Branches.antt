-- ===== src/Trie/Branches.antt =====
-- The map of children: increasing keys, and no child that could be pruned, at any depth.
use athera.Prelude.{
  ℕ, suc, ◌+◌, ◌≤◌, ◌<◌, ◌≡◌, refl, subst, none, some, true, false, ltb, ◌==◌, if◌then◌else◌, arith,
  inl, inr, Bool-cases, ltb→lt,
}
use athera.Trie.{
  Children, leaf, branch, Node, is_prunable, count_children, count, child, put, without, or_default,
}

module _ {V : Type 0} where
  -- Keys increase from `lo` on, and every child has a value or children.
  unfoldable pub IsChildren : ℕ → Children V → Type 0
  IsChildren lo leaf = 0 ≤ 0
  IsChildren lo (branch k v s r) =
      (lo ≤ k)
      × IsChildren 0 s
      × (is_prunable (record { value = v; children = s }) ≡ false)
      × IsChildren (suc k) r

  pub child_below : (lo k : ℕ) (cs : Children V) → k < lo → IsChildren lo cs → child k cs ≡ none
  unfolding child IsChildren
  child_below lo k leaf h o = refl
  child_below lo k (branch j v s r) h o =
      ground (arith, child_below (suc j) k r (omega (arith, o.0)) o.3)

  pub child-put :
      (k i : ℕ) (n : Node V) (cs : Children V)
      → child i (put k n cs) ≡ (if k == i then some n else child i cs)
  unfolding child put
  child-put k i n leaf = refl
  child-put k i n (branch j v s r) = ground (arith, child-put k i n r)

  pub child-without :
      (lo k i : ℕ) (cs : Children V)
      → IsChildren lo cs
      → child i (without k cs) ≡ (if k == i then none else child i cs)
  unfolding child without IsChildren
  child-without lo k i leaf o = ground arith
  child-without lo k i (branch j v s r) o =
      ground (arith, child-without (suc j) k i r o.3, child_below (suc j) i r)

  pub child-IsChildren :
      (lo k : ℕ) (cs : Children V) (c : Node V)
      → IsChildren lo cs
      → child k cs ≡ some c
      → IsChildren 0 c.children × (is_prunable c ≡ false)
  unfolding child IsChildren
  child-IsChildren lo k leaf c o e = absurd (ground (arith, e))
  child-IsChildren lo k (branch j v s r) c o e = elim (Bool-cases (j == k)) [
    | inl h ↦
        let same : some (record { value = v; children = s }) ≡ some c = ground (arith, e) in
        let at : record { value = v; children = s } ≡ c = ground (arith, same) in
        subst (λ c. IsChildren 0 c.children × (is_prunable c ≡ false)) at (o.1, o.2)
    | inr h ↦ child-IsChildren (suc j) k r c o.3 (ground (arith, e))
  ]

  raise : (lo lo' : ℕ) (cs : Children V) → lo' ≤ lo → IsChildren lo cs → IsChildren lo' cs
  unfolding IsChildren
  raise lo lo' leaf l o = o
  raise lo lo' (branch j v s r) l o = (omega (arith, o.0), o.1, o.2, o.3)

  pub put-IsChildren :
      (lo k : ℕ) (n : Node V) (cs : Children V)
      → IsChildren lo cs
      → lo ≤ k
      → IsChildren 0 n.children
      → is_prunable n ≡ false
      → IsChildren lo (put k n cs)
  unfolding put IsChildren
  put-IsChildren lo k n leaf o l c u = (l, c, u, omega arith)
  put-IsChildren lo k n (branch j v s r) o l c u = elim (Bool-cases (ltb k j)) [
    | inl h ↦ rw h (l, c, u, (ltb→lt k j h, o.1, o.2, o.3))
    | inr h ↦ elim (Bool-cases (k == j)) [
      | inl e ↦ rw (h, e) (l, c, u, raise (suc j) (suc k) r (ground arith) o.3)
      | inr e ↦ rw (h, e) (o.0, o.1, o.2, put-IsChildren (suc j) k n r o.3 (ground arith) c u)
    ]
  ]

  pub without-IsChildren :
      (lo k : ℕ) (cs : Children V) → IsChildren lo cs → IsChildren lo (without k cs)
  unfolding without IsChildren
  without-IsChildren lo k leaf o = o
  without-IsChildren lo k (branch j v s r) o = elim (Bool-cases (j == k)) [
    | inl e ↦ rw e (raise (suc j) lo r (omega (arith, o.0)) o.3)
    | inr e ↦ rw e (o.0, o.1, o.2, without-IsChildren (suc j) k r o.3)
  ]

  pub count-put :
      (lo k : ℕ) (n : Node V) (cs : Children V)
      → IsChildren lo cs
      → count_children (put k n cs) + count (or_default (child k cs)) ≡ count_children cs + count n
  unfolding child put count_children count IsChildren
  count-put lo k n leaf o = omega arith
  count-put lo k n (branch j v s r) o =
      ground (arith, count-put (suc j) k n r o.3, child_below (suc j) k r)

  pub count-without :
      (lo k : ℕ) (cs : Children V)
      → IsChildren lo cs
      → count_children (without k cs) + count (or_default (child k cs)) ≡ count_children cs
  unfolding child without count_children count IsChildren
  count-without lo k leaf o = omega arith
  count-without lo k (branch j v s r) o = ground (arith, count-without (suc j) k r o.3)

  pub put_same :
      (lo k : ℕ) (c : Node V) (cs : Children V)
      → IsChildren lo cs
      → child k cs ≡ some c
      → put k c cs ≡ cs
  unfolding child put IsChildren
  put_same lo k c leaf o e = absurd (ground (arith, e))
  put_same lo k c (branch j v s r) o e = elim (Bool-cases (j == k)) [
    | inl h ↦
        let same : some (record { value = v; children = s }) ≡ some c = ground (arith, e) in
        let at : record { value = v; children = s } ≡ c = ground (arith, same) in
        subst (λ c. put k c (branch j v s r) ≡ branch j v s r) at (here h)
    | inr h ↦
        let deeper : child k r ≡ some c = ground (arith, e) in
        let low = child_below (suc j) k r in
        ground (arith, put_same (suc j) k c r o.3 deeper, low, deeper)
  ]
    where
      here :
          (j == k) ≡ true
          → put k (record { value = v; children = s }) (branch j v s r) ≡ branch j v s r
      here h = ground arith
