-- ===== src/Trie/Contains.antt =====
-- `contains_prefix` and `has_entry`: a search through the branches below a node.
use athera.Prelude.{
  ℕ, suc, ◌≡◌, ◌↔◌, refl, sym, ap, subst, ◌∙◌, Option, none, some, true, false, List, [], ◌∷◌, ◌++◌,
  ◌==◌, arith, inl, inr, Bool-cases, Option-cases,
}
use athera.Trie.{
  Children, leaf, branch, Trie, Node, child, or_default, any_entry, has_entry, node_from, get,
  contains_prefix,
}
use athera.Trie.Branches.{IsChildren, child_below, child-IsChildren}
use athera.Trie.Lookup.{lookup, lookup-default, IsNode}
use athera.Trie.Laws.{IsTrie, get-lookup}

module _ {V : Type 0} where
  -- Some key below these children has a value.
  abbrev Below : Children V → Type 0
  Below cs = (k : ℕ) × (ks : List ℕ) × (v : V) × (lookup (or_default (child k cs)) ks ≡ some v)

  -- A key below the later children stays where it was.
  later :
      (lo j : ℕ) (v : Option V) (s r : Children V)
      → IsChildren lo (branch j v s r)
      → Below r
      → Below (branch j v s r)
  unfolding child IsChildren
  later lo j v s r o (k, ks, w, e) = elim (Bool-cases (j == k)) [
    | inr ne ↦ (k, ks, w, rw ne e)
    | inl same ↦
        let low = child_below (suc j) k r (ground arith) o.3 in
        absurd (ground (arith, sym e ∙ ap (λ x. lookup (or_default x) ks) low ∙ lookup-default ks))
  ]

  any_entry-Below : (lo : ℕ) (cs : Children V) → IsChildren lo cs → any_entry cs ≡ true → Below cs
  unfolding any_entry child IsChildren lookup
  any_entry-Below lo leaf o h = absurd (ground (arith, h))
  any_entry-Below lo (branch j none s r) o h = elim (Bool-cases (any_entry s)) [
    | inl a ↦
        let (k, ks, v, e) = any_entry-Below 0 s o.1 a in
        let here : (j == j) ≡ true = ground arith in (j, k ∷ ks, v, rw here e)
    | inr a ↦ later lo j none s r o (any_entry-Below (suc j) r o.3 (ground (arith, h, a)))
  ]
  any_entry-Below lo (branch j (some v) s r) o h =
      let here : (j == j) ≡ true = ground arith in (j, [], v, rw here refl)

  at_branch :
      (j : ℕ) (u : Option V) (s r : Children V) (k : ℕ) (ks : List ℕ)
      → (j == k) ≡ true
      → lookup (or_default (child k (branch j u s r))) ks
        ≡ lookup (record { value = u; children = s }) ks
  unfolding child
  at_branch j u s r k ks h = rw h refl

  at_other :
      (j : ℕ) (u : Option V) (s r : Children V) (k : ℕ) (ks : List ℕ)
      → (j == k) ≡ false
      → lookup (or_default (child k (branch j u s r))) ks ≡ lookup (or_default (child k r)) ks
  unfolding child
  at_other j u s r k ks h = rw h refl

  Below-any_entry :
      (cs : Children V) (k : ℕ) (ks : List ℕ) (v : V)
      → lookup (or_default (child k cs)) ks ≡ some v
      → any_entry cs ≡ true
  unfolding any_entry child lookup
  Below-any_entry leaf k ks v h = absurd (ground (arith, sym h ∙ lookup-default ks))
  Below-any_entry (branch j u s r) k [] v h = elim (Bool-cases (j == k)) [
    | inr ne ↦
        let rest = Below-any_entry r k [] v (sym (at_other j u s r k [] ne) ∙ h) in
        ground (arith, rest)
    | inl same ↦
        let value : u ≡ some v = sym (at_branch j u s r k [] same) ∙ h in ground (arith, value)
  ]
  Below-any_entry (branch j u s r) k (i ∷ is) v h = elim (Bool-cases (j == k)) [
    | inr ne ↦
        let rest = Below-any_entry r k (i ∷ is) v (sym (at_other j u s r k (i ∷ is) ne) ∙ h) in
        ground (arith, rest)
    | inl same ↦
        let inner = Below-any_entry s i is v (sym (at_branch j u s r k (i ∷ is) same) ∙ h) in
        ground (arith, inner)
  ]

  -- A node has an entry exactly when some lookup from it succeeds.
  has_entry_iff :
      (n : Node V)
      → IsNode n
      → (has_entry n ≡ true) ↔ ((ks : List ℕ) × (v : V) × (lookup n ks ≡ some v))
  unfolding has_entry lookup
  has_entry_iff n o = (forth, back)
    where
      forth : (has_entry n ≡ true) → (ks : List ℕ) × (v : V) × (lookup n ks ≡ some v)
      forth h = elim (Option-cases n.value) [
        | inr (v, e) ↦ ([], v, e)
        | inl e ↦
            let (k, ks, v, q) = any_entry-Below 0 n.children o (ground (arith, h, e)) in
            (k ∷ ks, v, q)
      ]

      back : ((ks : List ℕ) × (v : V) × (lookup n ks ≡ some v)) → has_entry n ≡ true
      back ([], v, e) = ground (arith, e)
      back (k ∷ ks, v, e) = let found = Below-any_entry n.children k ks v e in ground (arith, found)

  lookup-append :
      (n : Node V) (ks ls : List ℕ)
      → lookup n (ks ++ ls) ≡ elim (node_from n ks) [ none ↦ none | some m ↦ lookup m ls ]
  unfolding lookup node_from
  lookup-append n [] ls = refl
  lookup-append n (k ∷ ks) ls = elim (Option-cases (child k n.children)) [
    | inl e ↦ rw e (ap (λ x. lookup (or_default x) (ks ++ ls)) e ∙ lookup-default (ks ++ ls))
    | inr (c, e) ↦ rw e (ap (λ x. lookup (or_default x) (ks ++ ls)) e ∙ lookup-append c ks ls)
  ]

  node_from-IsNode : (n m : Node V) (ks : List ℕ) → IsNode n → node_from n ks ≡ some m → IsNode m
  unfolding node_from
  node_from-IsNode n m [] o e = let same : n ≡ m = ground (arith, e) in subst (λ n. IsNode n) same o
  node_from-IsNode n m (k ∷ ks) o e = elim (Option-cases (child k n.children)) [
    | inl q ↦ absurd (ground (arith, sym (stop q) ∙ e))
    | inr (c, q) ↦
        node_from-IsNode c m ks ((child-IsChildren 0 k n.children c o q).0) (sym (go c q) ∙ e)
  ]
    where
      stop : child k n.children ≡ none → node_from n (k ∷ ks) ≡ none
      stop q = rw (q, node_from) refl

      go : (c : Node V) → child k n.children ≡ some c → node_from n (k ∷ ks) ≡ node_from c ks
      go c q = rw (q, node_from) refl

  -- The node at the prefix, if there is one, reads the rest of every key.
  reads :
      (t : Trie V) (prefix rest : List ℕ) (r : Option (Node V))
      → node_from t.root prefix ≡ r
      → get t (prefix ++ rest) ≡ elim r [ none ↦ none | some m ↦ lookup m rest ]
  reads t prefix rest r e =
      get-lookup t (prefix ++ rest)
      ∙ lookup-append t.root prefix rest
      ∙ ap (λ (x : Option (Node V)). elim x [ none ↦ none | some m ↦ lookup m rest ]) e

  prefix_answer :
      (t : Trie V) (prefix : List ℕ)
      → IsTrie t
      → (r : Option (Node V)) → node_from t.root prefix ≡ r
      → (elim r [ none ↦ false | some n ↦ has_entry n ] ≡ true)
        ↔ ((rest : List ℕ) × (v : V) × (get t (prefix ++ rest) ≡ some v))
  prefix_answer t prefix is none e = (
    λ h. absurd (ground (arith, h)),
    λ (rest, v, q). absurd (ground (arith, sym q ∙ reads t prefix rest none e)),
  )
  prefix_answer t prefix is (some n) e =
      let entries = has_entry_iff n (node_from-IsNode t.root n prefix is.node e) in
      (
        λ h. let (ks, v, q) = entries.0 h in (ks, v, reads t prefix ks (some n) e ∙ q),
        λ (rest, v, q). entries.1 (rest, v, sym (reads t prefix rest (some n) e) ∙ q),
      )

  -- In a valid trie, `contains_prefix` answers true exactly when some key of the trie starts with
  -- the prefix.
  contains_prefix_iff :
      (t : Trie V) (prefix : List ℕ)
      → IsTrie t
      → (contains_prefix t prefix ≡ true)
        ↔ ((rest : List ℕ) × (v : V) × (get t (prefix ++ rest) ≡ some v))
  unfolding contains_prefix
  contains_prefix_iff t prefix is = prefix_answer t prefix is (node_from t.root prefix) refl
