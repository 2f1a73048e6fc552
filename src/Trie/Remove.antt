-- ===== src/Trie/Remove.antt =====
-- `remove_at`: the value at one key goes, and the branches that became empty with it.
use athera.Prelude.{
  ℕ, ◌+◌, ◌≡◌, ◌≢◌, refl, sym, ap, ◌∙◌, Option, none, some, true, false, List, [], ◌∷◌, arith, inl,
  inr, Bool-cases, Option-cases,
}
use athera.Prelude.Count.{to_nat}
use athera.Trie.{
  Children, leaf, branch, Node, is_some, default, is_prunable, has_no_children, count_children,
  count, child, put, without, or_default, remove_at, prune,
}
use athera.Trie.Branches.{
  child-put, child-without, child-IsChildren, put-IsChildren, without-IsChildren, count-put,
  count-without, put_same,
}
use athera.Trie.Lookup.{lookup, lookup-default, IsNode, Changes, change_child}

module _ {V : Type 0} where
  -- What `remove_at` makes of a node.
  pub record Removes (n : Node V) (key : List ℕ) (r : Node V × Option V) : Type 0 where
    pub old : r.1 ≡ lookup n key
    pub changes : Changes n key none (r.0)
    pub is_node : IsNode (r.0)
    pub idle : r.1 ≡ none → r.0 ≡ n
    pub counted : count (r.0) + to_nat (is_some (r.1)) ≡ count n

  -- A node that can be pruned answers no lookup.
  prunable-default : (n : Node V) → is_prunable n ≡ true → n ≡ default
  unfolding is_prunable has_no_children
  prunable-default n h = parts n.value n.children h
    where
      parts :
          (v : Option V) (cs : Children V)
          → is_prunable (record { value = v; children = cs }) ≡ true
          → record { value = v; children = cs } ≡ default
      parts none leaf h = refl
      parts none (branch k v s r) h = absurd (ground (arith, h))
      parts (some v) cs h = absurd (ground (arith, h))

  none_in : {m : Node V} → m ≡ default → count m ≡ 0
  unfolding count count_children
  none_in is = ap count is

  module _ (n : Node V) (o : IsNode n) (k : ℕ) (ks : List ℕ) (c : Node V)
      (e : child k n.children ≡ some c) where
    -- The answer of the call on the child, when it removed nothing or the child is still of use.
    kept :
        (m : Node V) (r : Option V)
        → Removes c ks (m, r)
        → is_prunable m ≡ false
        → Removes n (k ∷ ks) (record n { children = put k m n.children }, r)
    unfolding lookup count
    kept m r h useful =
        let size = count-put 0 k m n.children o in
        record {
          old = h.old ∙ rw e refl;
          changes =
              change_child n k ks none (put k m n.children) m (rw e h.changes)
                (λ i. ground (arith, child-put k i m n.children));
          is_node = put-IsChildren 0 k m n.children o (omega arith) h.is_node useful;
          idle = λ q.
              ap (λ cs. record n { children = cs })
                (ap (λ x. put k x n.children) (h.idle q) ∙ put_same 0 k c n.children o e);
          counted = ground (arith, size, h.counted, e);
        }

    pruned :
        (m : Node V) (old : V)
        → Removes c ks (m, some old)
        → is_prunable m ≡ true
        → Removes n (k ∷ ks) (record n { children = without k n.children }, some old)
    unfolding lookup count
    pruned m old h empty =
        let size = count-without 0 k n.children o in
        let is = prunable-default m empty in
        record {
          old = h.old ∙ rw e refl;
          changes =
              change_child n k ks none (without k n.children) m (rw e h.changes)
                (λ i. ground (arith, child-without 0 k i n.children o, is));
          is_node = without-IsChildren 0 k n.children o;
          idle = λ q. absurd (ground (arith, q));
          counted = omega (arith, size, h.counted, ap (λ x. count (or_default x)) e, none_in is);
        }

    under : (r : Node V × Option V) → Removes c ks r → Removes n (k ∷ ks) (prune n k r)
    unfolding prune
    under (m, none) h =
        kept m none h (ap is_prunable (h.idle refl) ∙ (child-IsChildren 0 k n.children c o e).1)
    under (m, some old) h = elim (Bool-cases (is_prunable m)) [
      | inl empty ↦ rw empty (pruned m old h empty)
      | inr useful ↦ rw useful (kept m (some old) h useful)
    ]

  pub remove_at-Removes : (n : Node V) (key : List ℕ) → IsNode n → Removes n key (remove_at n key)
  unfolding remove_at lookup count
  remove_at-Removes n [] o = record {
    old = refl;
    changes = record { at_key = refl; others = elsewhere };
    is_node = o;
    idle = λ q. ap (λ v. record n { value = v }) (sym q);
    counted = omega arith;
  }
    where
      elsewhere :
          (other : List ℕ) → [] ≢ other → lookup (record n { value = none }) other ≡ lookup n other
      elsewhere [] ne = absurd (ne refl)
      elsewhere (i ∷ is) ne = refl
  remove_at-Removes n (k ∷ ks) o = elim (Option-cases (child k n.children)) [
    | inl e ↦
        let absent = ap (λ x. lookup (or_default x) ks) e ∙ lookup-default ks in
        rw (e, remove_at)
          (record {
            old = sym absent;
            changes = record { at_key = absent; others = λ other ne. refl };
            is_node = o;
            idle = λ q. refl;
            counted = omega arith;
          })
    | inr (c, e) ↦
        rw (e, remove_at)
          (under n o k ks c e (remove_at c ks)
            (remove_at-Removes c ks ((child-IsChildren 0 k n.children c o e).0)))
  ]
