-- ===== src/Trie/Lookup.antt =====
-- The value at a key, and what `insert_at` and `remove_at` make of a node.
use athera.Prelude.{
  ℕ, ◌+◌, ◌≡◌, ◌≢◌, refl, sym, ap, subst, ◌∙◌, Option, none, some, false, List, [], ◌∷◌, ◌==◌,
  if◌then◌else◌, arith, inl, inr, Option-cases, ℕ_discrete,
}
use athera.Prelude.Count.{to_nat}
use athera.Trie.{
  Children, leaf, branch, Node, is_some, default, is_prunable, has_no_children, count, child, put,
  or_default, node_from, insert_at,
}
use athera.Trie.Branches.{IsChildren, child-put, child-IsChildren, put-IsChildren, count-put}

module _ {V : Type 0} where
  unfoldable pub lookup : Node V → List ℕ → Option V
  lookup n [] = n.value
  lookup n (k ∷ ks) = lookup (or_default (child k n.children)) ks

  pub lookup-default : (ks : List ℕ) → lookup (default {V = V}) ks ≡ none
  unfolding lookup child
  lookup-default [] = refl
  lookup-default (k ∷ ks) = lookup-default ks

  pub node_from-lookup :
      (n : Node V) (ks : List ℕ)
      → elim (node_from n ks) [ none ↦ none | some m ↦ m.value ] ≡ lookup n ks
  unfolding node_from lookup
  node_from-lookup n [] = refl
  node_from-lookup n (k ∷ ks) = elim (Option-cases (child k n.children)) [
    | inl e ↦ rw e (sym (lookup-default ks))
    | inr (c, e) ↦ rw e (node_from-lookup c ks)
  ]

  -- A node whose descendants are in order, and none of them prunable.
  abbrev pub IsNode : Node V → Type 0
  IsNode n = IsChildren 0 n.children

  child-IsNode : (n : Node V) (k : ℕ) → IsNode n → IsNode (or_default (child k n.children))
  unfolding IsChildren
  child-IsNode n k o = elim (Option-cases (child k n.children)) [
    | inl e ↦ rw e (omega arith)
    | inr (c, e) ↦ rw e ((child-IsChildren 0 k n.children c o e).0)
  ]

  -- The lookups of `m` are those of `n`, but for `key`, where it finds `v`.
  pub record Changes (n : Node V) (key : List ℕ) (v : Option V) (m : Node V) : Type 0 where
    pub at_key : lookup m key ≡ v
    pub others : (other : List ℕ) → key ≢ other → lookup m other ≡ lookup n other

  -- A change of the child at `k` is a change of the node.
  pub change_child :
      (n : Node V) (k : ℕ) (ks : List ℕ) (v : Option V) (cs : Children V) (c : Node V)
      → Changes (or_default (child k n.children)) ks v c
      → ((i : ℕ)
          → or_default (child i cs) ≡ (if k == i then c else or_default (child i n.children)))
      → Changes n (k ∷ ks) v (record n { children = cs })
  unfolding lookup
  change_child n k ks v cs c h same = record {
    at_key =
        let here : or_default (child k cs) ≡ c = ground (arith, same k) in
        ap (λ m. lookup m ks) here ∙ h.at_key;
    others = other_keys;
  }
    where
      other_keys :
          (other : List ℕ)
          → (k ∷ ks) ≢ other
          → lookup (record n { children = cs }) other ≡ lookup n other
      other_keys [] ne = refl
      other_keys (i ∷ is) ne = elim (ℕ_discrete k i) [
        | no far ↦
            let there : or_default (child i cs) ≡ or_default (child i n.children) =
              ground (arith, same i) in
            ap (λ m. lookup m is) there
        | yes e ↦
            subst
              (λ i.
                (k ∷ ks) ≢ (i ∷ is)
                → lookup (or_default (child i cs)) is ≡ lookup (or_default (child i n.children)) is)
              e
              (λ ne'.
                let here : or_default (child k cs) ≡ c = ground (arith, same k) in
                ap (λ m. lookup m is) here ∙ h.others is (λ q. ne' (ap (λ l. k ∷ l) q)))
              ne
      ]

  has_no_children-put :
      (k : ℕ) (n : Node V) (cs : Children V) → has_no_children (put k n cs) ≡ false
  unfolding has_no_children put
  has_no_children-put k n leaf = refl
  has_no_children-put k n (branch j v s r) = ground arith

  -- What `insert_at` makes of a node.
  pub record Inserts (n : Node V) (key : List ℕ) (v : V) (r : Node V × Option V) : Type 0 where
    pub old : r.1 ≡ lookup n key
    pub changes : Changes n key (some v) (r.0)
    pub is_node : IsNode (r.0)
    pub useful : is_prunable (r.0) ≡ false
    pub counted : count (r.0) + to_nat (is_some (r.1)) ≡ count n + 1

  pub insert_at-Inserts :
      (n : Node V) (key : List ℕ) (v : V) → IsNode n → Inserts n key v (insert_at n key v)
  unfolding insert_at lookup is_prunable count
  insert_at-Inserts n [] v o = record {
    old = refl;
    changes = record { at_key = refl; others = elsewhere };
    is_node = o;
    useful = refl;
    counted = omega arith;
  }
    where
      elsewhere :
          (other : List ℕ)
          → [] ≢ other
          → lookup (record n { value = some v }) other ≡ lookup n other
      elsewhere [] ne = absurd (ne refl)
      elsewhere (i ∷ is) ne = refl
  insert_at-Inserts n (k ∷ ks) v o =
      let r = insert_at (or_default (child k n.children)) ks v in
      let h = insert_at-Inserts (or_default (child k n.children)) ks v (child-IsNode n k o) in
      let size = count-put 0 k (r.0) n.children o in
      record {
        old = h.old;
        changes =
            change_child n k ks (some v) (put k (r.0) n.children) (r.0) h.changes
              (λ i. ground (arith, child-put k i (r.0) n.children));
        is_node = put-IsChildren 0 k (r.0) n.children o (omega arith) h.is_node h.useful;
        useful = ground (arith, has_no_children-put k (r.0) n.children);
        counted = omega (arith, size, h.counted);
      }
