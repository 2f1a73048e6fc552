-- ===== src/IdAlloc/Ranges.antt =====
-- The table `ranges` of free intervals `start -> end` and the changes that `FlatAlloc` makes to it.
pub mod Spec
pub mod Join
pub mod Cut
use athera.Prelude.{
  ℕ, zero, suc, ◌+◌, ◌-◌, Option, none, some, Bool, true, false, ◌&&◌, ◌||◌, ltb, leb, ◌==◌,
  if◌then◌else◌,
}
use athera.Prelude.BTreeMap.{BTreeMap, empty, entry, get, insert, remove, last_below}
use athera.IdAlloc.Id.{next, distance_to}

abbrev pub Ranges : Type 0
Ranges = BTreeMap ℕ

-- `available`: the lengths of all the intervals.
unfoldable pub available : Ranges → ℕ
available empty = 0
available (entry s e m) = distance_to s e + available m

-- The loop of `is_allocated`: whether it meets an interval that holds `id` before its `break`.
unfoldable pub scan : ℕ → Ranges → Bool
scan id empty = false
scan id (entry s e m) = if leb s id && ltb id e then true else if ltb id s then false else scan id m

-- An interval that ends where the new one starts is taken out, and its start is the new start.
unfoldable pub merge_before : ℕ → Ranges → ℕ × Ranges
merge_before a m = elim (last_below a m) [
  | none ↦ (a, m)
  | some (s, e) ↦ if e == a then (s, remove s m) else (a, m)
]

-- An interval that starts at `b` is taken out, and its end is the new end.
unfoldable pub merge_after : ℕ → Ranges → ℕ × Ranges
merge_after b m = elim (get b m) [ none ↦ (b, m) | some e ↦ (e, remove b m) ]

-- The body of `return_range` for a range that is not empty.
unfoldable pub give_back : ℕ → ℕ → Ranges → Ranges
unfolding merge_before merge_after
give_back a b m =
    let (new_start, m₁) = merge_before a m in
    let (new_end, m₂) = merge_after b m₁ in insert new_start new_end m₂

unfoldable pub insert_free_range : ℕ → Ranges → ℕ → Ranges
unfolding merge_before merge_after next
insert_free_range w m n =
    let (new_start, m₁) = merge_before n m in
    elim (next w n) [
      | none ↦ insert new_start n m₁
      | some after ↦ let (new_end, m₂) = merge_after after m₁ in insert new_start new_end m₂
    ]

-- What `alloc_at` and `carve` leave of the interval `[s, e)` without `[a, b)`.
unfoldable pub split : ℕ → ℕ → ℕ → ℕ → Ranges → Ranges
split a b s e m =
    let m₁ = remove s m in
    let m₂ = if ltb s a then insert s a m₁ else m₁ in if ltb b e then insert b e m₂ else m₂
