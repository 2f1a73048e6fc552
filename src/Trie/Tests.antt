-- ===== src/Trie/Tests.antt =====
-- The theorems about the trie at a small trie of two keys, one a prefix of the other.
use athera.Prelude.{ℕ, ◌≡◌, refl, none, some, [], ◌∷◌, arith}
use athera.Trie.{
  Trie, branch, leaf, child, count, count_children, is_prunable, deepest, insert, remove,
  longest_prefix,
}
use athera.Trie.Branches.{IsChildren}
use athera.Trie.Laws.{IsTrie, Insert, Remove, insert-Insert, remove-Remove}
use athera.Trie.Prefix.{LongestPrefix, longest_prefix-LongestPrefix}

-- 7 at the key [1] and 8 at the key [1, 2].
abbrev sample : Trie ℕ
sample = record {
  root = record { value = none; children = branch 1 (some 7) (branch 2 (some 8) leaf leaf) leaf };
  len = 2;
}

sample-IsTrie : IsTrie sample
unfolding IsChildren count count_children is_prunable
sample-IsTrie = record {
  node = (omega arith, (omega arith, omega arith, refl, omega arith), refl, omega arith);
  counted = refl;
}

-- The longest key of the trie that begins [1, 3].
longest_sample : longest_prefix sample (1 ∷ 3 ∷ []) ≡ some (1 ∷ [], 7)
unfolding longest_prefix deepest child
longest_sample = refl

insert-Insert_example : Insert sample (1 ∷ 3 ∷ []) 9 (insert sample (1 ∷ 3 ∷ []) 9)
insert-Insert_example = insert-Insert sample (1 ∷ 3 ∷ []) 9 sample-IsTrie

remove-Remove_example : Remove sample (1 ∷ 2 ∷ []) (remove sample (1 ∷ 2 ∷ []))
remove-Remove_example = remove-Remove sample (1 ∷ 2 ∷ []) sample-IsTrie

longest_prefix-LongestPrefix_example :
    LongestPrefix sample (1 ∷ 3 ∷ []) (longest_prefix sample (1 ∷ 3 ∷ []))
longest_prefix-LongestPrefix_example = longest_prefix-LongestPrefix sample (1 ∷ 3 ∷ [])
