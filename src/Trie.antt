-- ===== src/Trie.antt =====
-- The prefix tree of crates/athera-trie/src/lib.rs, for keys whose elements are numbers (bytes). A
-- `Node` has a value and a map of children. `Children` is the `BTreeMap<K, Box<Node<K, V>>>` in the
-- order of its keys, with the two fields of each boxed node written in the entry.
pub mod Branches
pub mod Lookup
pub mod Remove
pub mod Laws
pub mod Prefix
pub mod Contains
mod Tests
use athera.Prelude.{
  ℕ, zero, suc, ◌+◌, ◌-◌, Option, none, some, Bool, true, false, ◌&&◌, ◌||◌, List, [], ◌∷◌, take,
  ltb, ◌==◌, if◌then◌else◌,
}
use athera.Prelude.Count.{to_nat}
use athera.Prelude.BTreeMap.{or_else}
use athera.Prelude.Result.{Outcome, panic, returns}

pub data Children (V : Type 0) : Type 0 where
  leaf : Children V
  branch : ℕ → Option V → Children V → Children V → Children V

pub record Node (V : Type 0) : Type 0 where
  pub value : Option V
  pub children : Children V

pub record Trie (V : Type 0) : Type 0 where
  pub root : Node V
  pub len : ℕ

abbrev pub is_some {ℓ} : {A : Type ℓ} → Option A → Bool
is_some none = false
is_some (some a) = true

module _ {V : Type 0} where
  -- `Node::default`.
  abbrev pub default : Node V
  default = record { value = none; children = leaf }

  unfoldable pub has_no_children : Children V → Bool
  has_no_children leaf = true
  has_no_children (branch k v s r) = false

  unfoldable pub is_prunable : Node V → Bool
  unfolding has_no_children
  is_prunable n = if is_some n.value then false else has_no_children n.children

  -- The sum over `children.values()` in `Node::count`.
  unfoldable pub count_children : Children V → ℕ
  count_children leaf = 0
  count_children (branch k v s r) = to_nat (is_some v) + count_children s + count_children r

  unfoldable pub count : Node V → ℕ
  count n = to_nat (is_some n.value) + count_children n.children

  -- The `any` over `children.values()` in `Node::has_entry`.
  unfoldable pub any_entry : Children V → Bool
  any_entry leaf = false
  any_entry (branch k v s r) = is_some v || any_entry s || any_entry r

  unfoldable pub has_entry : Node V → Bool
  has_entry n = is_some n.value || any_entry n.children

  -- `children.get(k)`.
  unfoldable pub child : ℕ → Children V → Option (Node V)
  child k leaf = none
  child k (branch j v s r) = if j == k then some (record { value = v; children = s }) else child k r

  -- `children` with the child at `k` put in or replaced.
  unfoldable pub put : ℕ → Node V → Children V → Children V
  put k n leaf = branch k n.value n.children leaf
  put k n (branch j v s r) =
      if ltb k j
      then branch k n.value n.children (branch j v s r)
      else if k == j
      then branch k n.value n.children r
      else branch j v s (put k n r)

  -- `children.remove(k)`.
  unfoldable pub without : ℕ → Children V → Children V
  without k leaf = leaf
  without k (branch j v s r) = if j == k then r else branch j v s (without k r)

  abbrev pub new : Trie V
  new = record { root = record { value = none; children = leaf }; len = 0 }

  abbrev pub is_empty : Trie V → Bool
  is_empty t = t.len == 0

  abbrev pub clear : Trie V → Trie V
  clear t = record { root = record { value = none; children = leaf }; len = 0 }

  -- The loop of `node_of` and `node_of_mut`.
  unfoldable pub node_from : Node V → List ℕ → Option (Node V)
  node_from n [] = some n
  node_from n (k ∷ ks) = elim (child k n.children) [ none ↦ none | some c ↦ node_from c ks ]

  abbrev pub node_of : Trie V → List ℕ → Option (Node V)
  node_of t key = node_from t.root key

  unfoldable pub get : Trie V → List ℕ → Option V
  get t key = elim (node_of t key) [ none ↦ none | some n ↦ n.value ]

  unfoldable pub contains_key : Trie V → List ℕ → Bool
  contains_key t key = is_some (get t key)

  -- `entry(k).or_default()`.
  abbrev pub or_default : Option (Node V) → Node V
  or_default none = default
  or_default (some n) = n

  -- The loop of `insert` and its `replace`, with the nodes on the way written back.
  unfoldable pub insert_at : Node V → List ℕ → V → Node V × Option V
  insert_at n [] v = (record n { value = some v }, n.value)
  insert_at n (k ∷ ks) v =
      let r = insert_at (or_default (child k n.children)) ks v in
      (record n { children = put k (r.0) n.children }, r.1)

  unfoldable pub insert : Trie V → List ℕ → V → Trie V × Option V
  insert t key v =
      let r = insert_at t.root key v in
      (record { root = r.0; len = if is_some (r.1) then t.len else t.len + 1 }, r.1)

  -- `remove_at` after its recursive call on the child at `k`, which changed the child in place.
  unfoldable pub prune : Node V → ℕ → Node V × Option V → Node V × Option V
  prune n k (c, none) = (record n { children = put k c n.children }, none)
  prune n k (c, some old) = (
    record n { children = if is_prunable c then without k n.children else put k c n.children },
    some old,
  )

  unfoldable pub remove_at : Node V → List ℕ → Node V × Option V
  remove_at n [] = (record n { value = none }, n.value)
  remove_at n (k ∷ ks) = elim (child k n.children) [
    | none ↦ (n, none)
    | some c ↦ prune n k (remove_at c ks)
  ]

  -- `remove` after `remove_at`.
  unfoldable pub drop_entry : ℕ → Node V × Option V → Outcome (Trie V × Option V)
  drop_entry len (root, none) = returns (record { root = root; len = len }, none)
  drop_entry len (root, some old) =
      if len == 0 then panic else returns (record { root = root; len = len - 1 }, some old)

  unfoldable pub remove : Trie V → List ℕ → Outcome (Trie V × Option V)
  remove t key = drop_entry t.len (remove_at t.root key)

  -- `value.as_ref().map(|v| (depth, v))`.
  abbrev pub at_depth : ℕ → Option V → Option (ℕ × V)
  at_depth depth none = none
  at_depth depth (some v) = some (depth, v)

  -- The loop of `longest_prefix` at element `i`.
  unfoldable pub deepest : Node V → ℕ → List ℕ → Option (ℕ × V) → Option (ℕ × V)
  deepest n i [] best = best
  deepest n i (k ∷ ks) best = elim (child k n.children) [
    | none ↦ best
    | some c ↦ deepest c (i + 1) ks (or_else (at_depth (i + 1) c.value) best)
  ]

  -- `best.map(|(depth, v)| (&key[..depth], v))`.
  abbrev pub cut_key : List ℕ → Option (ℕ × V) → Option (List ℕ × V)
  cut_key key none = none
  cut_key key (some (depth, v)) = some (take depth key, v)

  unfoldable pub longest_prefix : Trie V → List ℕ → Option (List ℕ × V)
  longest_prefix t key = cut_key key (deepest t.root 0 key (at_depth 0 t.root.value))

  unfoldable pub contains_prefix : Trie V → List ℕ → Bool
  unfolding has_entry
  contains_prefix t prefix = elim (node_of t prefix) [ none ↦ false | some n ↦ has_entry n ]
