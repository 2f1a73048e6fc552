-- ===== src/Path.antt =====
-- `Path`, `PathBuf` and `Components` of src/fs/path.rs, on the bytes of the string. The separator
-- `/` is the byte 47, which no longer UTF-8 sequence holds.
pub mod Push
pub mod Iter
pub mod Names
pub mod Pop
pub mod FileName
pub mod Prefix
mod Tests
use athera.Prelude.{
  ℕ, zero, suc, ◌+◌, ◌-◌, Option, none, some, Bool, true, false, not, ◌&&◌, List, [], ◌∷◌, ◌++◌,
  length, take, drop, ltb, leb, ◌==◌, if◌then◌else◌,
}

abbrev pub path_separator : ℕ
path_separator = 47

pub data Component : Type 0 where
  root_dir : Component
  cur_dir : Component
  parent_dir : Component
  normal : List ℕ → Component

unfoldable pub is_absolute : List ℕ → Bool
is_absolute [] = false
is_absolute (c ∷ cs) = c == path_separator

abbrev pub is_relative : List ℕ → Bool
is_relative s = not (is_absolute s)

unfoldable pub is_empty : List ℕ → Bool
is_empty [] = true
is_empty (c ∷ cs) = false

-- `ends_with(PATH_SEPARATOR)`.
unfoldable pub ends_with_separator : List ℕ → Bool
ends_with_separator [] = false
ends_with_separator (c ∷ []) = c == path_separator
ends_with_separator (c ∷ d ∷ cs) = ends_with_separator (d ∷ cs)

-- `push`, for `PathBuf` and for the two methods `join`.
unfoldable pub push : List ℕ → List ℕ → List ℕ
push buf path =
    if is_absolute path
    then path
    else if is_empty path
    then buf
    else if not (is_empty buf) && not (ends_with_separator buf)
    then buf ++ (path_separator ∷ path)
    else buf ++ path

-- `str::split` at the separator.
unfoldable pub prepend : ℕ → List (List ℕ) → List (List ℕ)
prepend c [] = (c ∷ []) ∷ []
prepend c (part ∷ parts) = (c ∷ part) ∷ parts

unfoldable pub split : List ℕ → List (List ℕ)
split [] = [] ∷ []
split (c ∷ cs) = let rest = split cs in if c == path_separator then [] ∷ rest else prepend c rest

-- `Components`: the parts that are left, and the two flags.
pub record Components : Type 0 where
  pub parts : List (List ℕ)
  pub absolute : Bool
  pub seen_root : Bool

unfoldable pub components : List ℕ → Components
components s = record { parts = split s; absolute = is_absolute s; seen_root = false }

-- The match on a part: an empty part has no component, and 46 is the dot.
unfoldable pub classify : List ℕ → Option Component
classify [] = none
classify (c ∷ []) = if c == 46 then some cur_dir else some (normal (c ∷ []))
classify (c ∷ d ∷ []) = if c == 46 && d == 46 then some parent_dir else some (normal (c ∷ d ∷ []))
classify (c ∷ d ∷ e ∷ cs) = some (normal (c ∷ d ∷ e ∷ cs))

-- `next` past the root: parts are taken up to the first that has a component.
unfoldable pub next_part : List (List ℕ) → List (List ℕ) × Option Component
next_part [] = ([], none)
next_part (part ∷ parts) =
    let rest = next_part parts in elim (classify part) [ none ↦ rest | some c ↦ (parts, some c) ]

unfoldable pub next : Components → Components × Option Component
next it =
    if it.absolute && not it.seen_root
    then (record it { seen_root = true }, some root_dir)
    else (record it { parts = (next_part it.parts).0 }, (next_part it.parts).1)

-- `str::trim_end_matches` and `str::rfind` of a byte.
unfoldable pub trim_end : List ℕ → List ℕ
trim_end [] = []
trim_end (c ∷ cs) =
    let rest = trim_end cs in if c == path_separator && is_empty rest then [] else c ∷ rest

unfoldable pub rfind : ℕ → List ℕ → Option ℕ
rfind byte [] = none
rfind byte (c ∷ cs) = elim (rfind byte cs) [
  | some i ↦ some (suc i)
  | none ↦ if c == byte then some 0 else none
]

unfoldable pub parent : List ℕ → Option (List ℕ)
parent s =
    let t = trim_end s in
    if is_empty t then none else elim (rfind path_separator t) [
      | none ↦ some []
      | some pos ↦ if pos == 0 then some (path_separator ∷ []) else some (take pos t)
    ]

-- `file_name`, of the path without the separators at its end.
unfoldable pub last_name : List ℕ → Option (List ℕ)
last_name t = elim (rfind path_separator t) [
  | none ↦ if is_empty t then none else some t
  | some pos ↦ if ltb (pos + 1) (length t) then some (drop (pos + 1) t) else none
]

unfoldable pub file_name : List ℕ → Option (List ℕ)
file_name s = last_name (trim_end s)

-- 46 is the dot.
unfoldable pub extension : List ℕ → Option (List ℕ)
extension s = elim (file_name s) [
  | none ↦ none
  | some name ↦ elim (rfind 46 name) [
    | none ↦ none
    | some pos ↦ if ltb (pos + 1) (length name) then some (drop (pos + 1) name) else none
  ]
]

-- `pop`: the path and the answer.
unfoldable pub pop : List ℕ → List ℕ × Bool
pop buf =
    let s = trim_end buf in
    if is_empty s then (buf, false) else elim (rfind path_separator s) [
      | none ↦ ([], true)
      | some pos ↦ (take (if pos == 0 then 1 else pos) buf, true)
    ]

unfoldable pub set_file_name : List ℕ → List ℕ → List ℕ
set_file_name buf name = elim (parent buf) [
  | none ↦ if is_absolute buf then path_separator ∷ name else name
  | some p ↦
      if not (is_empty p) && not (ends_with_separator p)
      then p ++ (path_separator ∷ name)
      else p ++ name
]

-- `collect` of an iterator, with `n` for its calls of `next`.
unfoldable pub collect : ℕ → Components → List Component
collect zero it = []
collect (suc n) it = elim ((next it).1) [ none ↦ [] | some c ↦ c ∷ collect n ((next it).0) ]

-- A path has at most its parts and a root.
unfoldable pub all_components : List ℕ → List Component
all_components s = collect (length (split s) + 2) (components s)

unfoldable pub bytes_eq : List ℕ → List ℕ → Bool
bytes_eq [] [] = true
bytes_eq [] (d ∷ ds) = false
bytes_eq (c ∷ cs) [] = false
bytes_eq (c ∷ cs) (d ∷ ds) = c == d && bytes_eq cs ds

unfoldable pub component_eq : Component → Component → Bool
component_eq root_dir root_dir = true
component_eq cur_dir cur_dir = true
component_eq parent_dir parent_dir = true
component_eq (normal s) (normal t) = bytes_eq s t
component_eq c d = false

unfoldable pub all_eq : List Component → List Component → Bool
all_eq [] [] = true
all_eq [] (d ∷ ds) = false
all_eq (c ∷ cs) [] = false
all_eq (c ∷ cs) (d ∷ ds) = component_eq c d && all_eq cs ds

unfoldable pub starts_with : List ℕ → List ℕ → Bool
starts_with s base =
    let a = all_components s in
    let b = all_components base in leb (length b) (length a) && all_eq (take (length b) a) b

unfoldable pub ends_with : List ℕ → List ℕ → Bool
ends_with s child =
    let a = all_components s in
    let b = all_components child in
    leb (length b) (length a) && all_eq (drop (length a - length b) a) b
