-- ===== src/Trie/Laws.antt =====
-- The trie as a map from keys to values: `insert`, `remove` and the counter `len`.
use athera.Prelude.{
  ℕ, ◌+◌, ◌-◌, ◌≡◌, ◌≢◌, refl, sym, ◌∙◌, Option, none, some, false, List, ◌==◌, if◌then◌else◌,
  arith,
}
use athera.Prelude.Result.{Outcome, returns}
use athera.Trie.{Trie, Node, is_some, count, get, insert, insert_at, remove, remove_at, drop_entry}
use athera.Trie.Lookup.{lookup, node_from-lookup, IsNode, Changes, Inserts, insert_at-Inserts}
use athera.Trie.Remove.{Removes, remove_at-Removes}

module _ {V : Type 0} where
  pub get-lookup : (t : Trie V) (key : List ℕ) → get t key ≡ lookup t.root key
  unfolding get
  get-lookup t key = node_from-lookup t.root key

  -- Children in order, no branch that could be pruned, and a counter that counts the entries.
  pub record IsTrie (t : Trie V) : Type 0 where
    pub node : IsNode t.root
    pub counted : t.len ≡ count t.root

  -- `t'` answers `v` at `key` and what `t` answers at every other key.
  pub record Updates (t : Trie V) (key : List ℕ) (v : Option V) (t' : Trie V) : Type 0 where
    pub at_key : get t' key ≡ v
    pub others : (other : List ℕ) → key ≢ other → get t' other ≡ get t other
    pub valid : IsTrie t'

  updates :
      (t t' : Trie V) (key : List ℕ) (v : Option V)
      → Changes t.root key v t'.root
      → IsTrie t'
      → Updates t key v t'
  updates t t' key v c is = record {
    at_key = get-lookup t' key ∙ c.at_key;
    others = λ other ne. get-lookup t' other ∙ c.others other ne ∙ sym (get-lookup t other);
    valid = is;
  }

  -- What `insert` returns.
  pub data Insert (t : Trie V) (key : List ℕ) (v : V) : Trie V × Option V → Type 0 where
    fresh :
        (t' : Trie V)
        → get t key ≡ none
        → Updates t key (some v) t'
        → t'.len ≡ t.len + 1
        → Insert t key v (t', none)
    replaced :
        (t' : Trie V) (old : V)
        → get t key ≡ some old
        → Updates t key (some v) t'
        → t'.len ≡ t.len
        → Insert t key v (t', some old)

  inserted :
      (t : Trie V) (key : List ℕ) (v : V) (root : Node V) (old : Option V)
      → IsTrie t
      → Inserts t.root key v (root, old)
      → Insert t key v (record { root = root; len = if is_some old then t.len else t.len + 1 }, old)
  inserted t key v root none is h =
      Insert.fresh _ (get-lookup t key ∙ sym h.old)
        (updates t _ key (some v) h.changes
          (record { node = h.is_node; counted = omega (arith, h.counted, is.counted) }))
        refl
  inserted t key v root (some old) is h =
      Insert.replaced _ old (get-lookup t key ∙ sym h.old)
        (updates t _ key (some v) h.changes
          (record { node = h.is_node; counted = omega (arith, h.counted, is.counted) }))
        refl

  -- In a valid trie, `insert` returns the value that the key had, sets the key's value and no
  -- other key's, and counts the key when it is new.
  pub insert-Insert :
      (t : Trie V) (key : List ℕ) (v : V) → IsTrie t → Insert t key v (insert t key v)
  unfolding insert
  insert-Insert t key v is =
      inserted t key v ((insert_at t.root key v).0) ((insert_at t.root key v).1) is
        (insert_at-Inserts t.root key v is.node)

  -- What `remove` returns.
  pub data Remove (t : Trie V) (key : List ℕ) : Outcome (Trie V × Option V) → Type 0 where
    absent : get t key ≡ none → Remove t key (returns (t, none))
    removed :
        (t' : Trie V) (old : V)
        → get t key ≡ some old
        → Updates t key none t'
        → t'.len + 1 ≡ t.len
        → Remove t key (returns (t', some old))

  dropped :
      (t : Trie V) (key : List ℕ) (r : Node V × Option V)
      → IsTrie t
      → Removes t.root key r
      → Remove t key (drop_entry t.len r)
  unfolding drop_entry
  dropped t key (root, none) is h = rw (h.idle refl) (Remove.absent (get-lookup t key ∙ sym h.old))
  dropped t key (root, some old) is h =
      let some_entry : (t.len == 0) ≡ false = ground (arith, h.counted, is.counted) in
      let left : t.len - 1 + 1 ≡ t.len = ground (arith, some_entry) in
      rw some_entry (
        Remove.removed _ old (get-lookup t key ∙ sym h.old)
          (updates t _ key none h.changes
            (record { node = h.is_node; counted = omega (arith, h.counted, is.counted) }))
          left)

  -- In a valid trie, `remove` does not panic. It returns the value that the key had; an absent key
  -- leaves the trie as it is, and otherwise that key alone loses its value, the counter goes down by
  -- one, and no branch without entries is left.
  pub remove-Remove : (t : Trie V) (key : List ℕ) → IsTrie t → Remove t key (remove t key)
  unfolding remove
  remove-Remove t key is =
      dropped t key (remove_at t.root key) is (remove_at-Removes t.root key is.node)
