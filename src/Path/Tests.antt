-- ===== src/Path/Tests.antt =====
-- The path "/a/" and the path "../b".
use athera.Prelude.{ℕ, ◌≡◌, refl, List, [], ◌∷◌, ◌++◌, ◌↔◌, some, true, arith}
use athera.Path.{
  root_dir, parent_dir, normal, push, split, is_absolute, is_empty, ends_with_separator, prepend,
  classify, Component, pop, file_name, set_file_name, starts_with,
}
use athera.Path.Names.{IsName, end_of, more}
use athera.Path.Pop.{Pops, pop-Pops, pop-push}
use athera.Path.FileName.{file_name-set_file_name}
use athera.Path.Prefix.{starts_with_iff}
use athera.Path.Push.{names, listing}

abbrev directory : List ℕ
directory = 47 ∷ 97 ∷ 47 ∷ []

abbrev relative : List ℕ
relative = 46 ∷ 46 ∷ 47 ∷ 98 ∷ []

joined :
    listing (push directory relative)
    ≡ root_dir ∷ normal (97 ∷ []) ∷ parent_dir ∷ normal (98 ∷ []) ∷ []
unfolding listing push names split classify is_absolute is_empty ends_with_separator prepend
joined = refl

name : IsName (98 ∷ [])
name = more 98 [] (omega arith) end_of

pop-push_example : listing ((pop (push directory (98 ∷ []))).0) ≡ listing directory
pop-push_example = pop-push directory 98 [] name

pop-Pops_example : Pops directory (pop directory)
pop-Pops_example = pop-Pops directory

file_name-set_file_name_example : file_name (set_file_name directory (98 ∷ [])) ≡ some (98 ∷ [])
file_name-set_file_name_example = file_name-set_file_name directory 98 [] name

starts_with_iff_example :
    (starts_with directory (47 ∷ []) ≡ true)
    ↔ ((rest : List Component) × (listing directory ≡ listing (47 ∷ []) ++ rest))
starts_with_iff_example = starts_with_iff directory (47 ∷ [])
