-- ===== src/Trie/Prefix.antt =====
-- `longest_prefix` and `contains_prefix`.
use athera.Prelude.{
  ℕ, zero, suc, ◌+◌, ◌≤◌, ◌<◌, ◌≡◌, refl, ap, ◌∙◌, Option, none, some, List, [], ◌∷◌, length, take,
  ◌==◌, arith, inl, inr, Bool-cases, Option-cases,
}
use athera.Prelude.BTreeMap.{or_else}
use athera.Trie.{Trie, Node, child, or_default, get, at_depth, deepest, cut_key, longest_prefix}
use athera.Trie.Lookup.{lookup, lookup-default}
use athera.Trie.Laws.{get-lookup}

module _ {V : Type 0} where
  -- What the loop finds below a node, `i` elements down: the deepest value on the way, or `best`.
  data Deepest (n : Node V) (i : ℕ) (key : List ℕ) (best : Option (ℕ × V))
      : Option (ℕ × V) → Type 0 where
    keep :
        ((d : ℕ) → 0 < d → d ≤ length key → lookup n (take d key) ≡ none)
        → Deepest n i key best best
    deeper :
        (d : ℕ) (v : V)
        → 0 < d
        → d ≤ length key
        → lookup n (take d key) ≡ some v
        → ((e : ℕ) → d < e → e ≤ length key → lookup n (take e key) ≡ none)
        → Deepest n i key best (some (i + d, v))

  module _ (n c : Node V) (k : ℕ) (ks : List ℕ) (e : child k n.children ≡ some c) where
    one_down : (d : ℕ) → lookup n (take (suc d) (k ∷ ks)) ≡ lookup c (take d ks)
    unfolding lookup
    one_down d = ap (λ x. lookup (or_default x) (take d ks)) e

    -- Where the nodes below `c` have no value, no deeper prefix of the key has one.
    none_deeper :
        ((d : ℕ) → 0 < d → d ≤ length ks → lookup c (take d ks) ≡ none)
        → (d : ℕ) → 1 < d
        → d ≤ length (k ∷ ks)
        → lookup n (take d (k ∷ ks)) ≡ none
    none_deeper h zero a b = absurd (omega arith)
    none_deeper h (suc d) a b = one_down d ∙ h d (omega arith) (omega arith)

    none_below :
        ((d : ℕ) → 0 < d → d ≤ length ks → lookup c (take d ks) ≡ none)
        → c.value ≡ none
        → (d : ℕ) → 0 < d
        → d ≤ length (k ∷ ks)
        → lookup n (take d (k ∷ ks)) ≡ none
    unfolding lookup
    none_below h v zero a b = absurd (omega arith)
    none_below h v (suc zero) a b = one_down 0 ∙ v
    none_below h v (suc (suc d)) a b = none_deeper h (suc (suc d)) (omega arith) b

    below :
        (i : ℕ) (best r : Option (ℕ × V))
        → Deepest c (i + 1) ks (or_else (at_depth (i + 1) c.value) best) r
        → Deepest n i (k ∷ ks) best r
    unfolding lookup
    below i best _ (Deepest.keep h) = elim (Option-cases c.value) [
      | inl v ↦ rw v (Deepest.keep (none_below h v))
      | inr (v, q) ↦
          rw q (Deepest.deeper 1 v (omega arith) (omega arith) (one_down 0 ∙ q) (none_deeper h))
    ]
    below i best _ (Deepest.deeper d v a b f g) =
        let depth : i + 1 + d ≡ i + suc d = omega arith in
        rw depth (
          Deepest.deeper (suc d) v (omega arith) (omega arith) (one_down d ∙ f)
            (λ m l q. past g m l q))
      where
        past :
            ((m : ℕ) → d < m → m ≤ length ks → lookup c (take m ks) ≡ none)
            → (m : ℕ) → suc d < m
            → m ≤ length (k ∷ ks)
            → lookup n (take m (k ∷ ks)) ≡ none
        past g zero l q = absurd (omega arith)
        past g (suc m) l q = one_down m ∙ g m (omega arith) (omega arith)

  no_child :
      (n : Node V) (k : ℕ) (ks : List ℕ)
      → child k n.children ≡ none
      → (d : ℕ) → 0 < d
      → d ≤ length (k ∷ ks)
      → lookup n (take d (k ∷ ks)) ≡ none
  unfolding lookup
  no_child n k ks e zero a b = absurd (omega arith)
  no_child n k ks e (suc d) a b =
      ap (λ x. lookup (or_default x) (take d ks)) e ∙ lookup-default (take d ks)

  deepest-Deepest :
      (n : Node V) (i : ℕ) (key : List ℕ) (best : Option (ℕ × V))
      → Deepest n i key best (deepest n i key best)
  unfolding deepest lookup
  deepest-Deepest n i [] best = Deepest.keep (λ d a b. absurd (omega arith))
  deepest-Deepest n i (k ∷ ks) best = elim (Option-cases (child k n.children)) [
    | inl e ↦ rw (e, deepest) (Deepest.keep (no_child n k ks e))
    | inr (c, e) ↦
        rw (e, deepest)
          (below n c k ks e i best _
            (deepest-Deepest c (i + 1) ks (or_else (at_depth (i + 1) c.value) best)))
  ]

  -- The answers of `longest_prefix`.
  pub data LongestPrefix (t : Trie V) (key : List ℕ) : Option (List ℕ × V) → Type 0 where
    nothing : ((d : ℕ) → d ≤ length key → get t (take d key) ≡ none) → LongestPrefix t key none
    longest :
        (d : ℕ) (v : V)
        → d ≤ length key
        → get t (take d key) ≡ some v
        → ((e : ℕ) → d < e → e ≤ length key → get t (take e key) ≡ none)
        → LongestPrefix t key (some (take d key, v))

  -- The root's own value, and what the loop found.
  from_root :
      (t : Trie V) (key : List ℕ) (x : Option V) (r : Option (ℕ × V))
      → t.root.value ≡ x
      → Deepest t.root 0 key (at_depth 0 x) r
      → LongestPrefix t key (cut_key key r)
  unfolding lookup
  from_root t key none _ q (Deepest.keep h) = LongestPrefix.nothing (λ d a.
      get-lookup t (take d key) ∙ elim (Bool-cases (d == 0)) [
        | inl z ↦ let at : d ≡ 0 = ground arith in rw at q
        | inr nz ↦ h d (ground arith) a
      ])
  from_root t key (some v) _ q (Deepest.keep h) =
      LongestPrefix.longest 0 v (omega arith) (get-lookup t [] ∙ q)
        (λ e l m. get-lookup t (take e key) ∙ h e l m)
  from_root t key x _ q (Deepest.deeper d v a b f g) =
      let depth : 0 + d ≡ d = omega arith in
      rw depth (
        LongestPrefix.longest d v b (get-lookup t (take d key) ∙ f)
          (λ e l m. get-lookup t (take e key) ∙ g e l m))

  -- `longest_prefix` returns the longest prefix of the key that is a key of the trie, with its
  -- value, and `None` only when no prefix of the key is one, the empty key included.
  pub longest_prefix-LongestPrefix :
      (t : Trie V) (key : List ℕ) → LongestPrefix t key (longest_prefix t key)
  unfolding longest_prefix
  longest_prefix-LongestPrefix t key =
      from_root t key t.root.value (deepest t.root 0 key (at_depth 0 t.root.value)) refl
        (deepest-Deepest t.root 0 key (at_depth 0 t.root.value))
