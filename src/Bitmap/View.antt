-- ===== src/Bitmap/View.antt =====
-- `BitMapView` of crates/athera-bitmap/src/lib.rs, method by method: a bitmap on borrowed words
-- that keeps no counter. `BitIter` is shared with `BitMap`.
pub mod Ops
pub mod Iter
use athera.Prelude.{
  ℕ, ◌+◌, ◌-◌, ◌*◌, Option, none, some, Bool, true, false, not, ◌&&◌, ◌||◌, List, length, replicate,
  ltb, leb, ◌==◌, if◌then◌else◌,
}
use athera.Prelude.Result.{Result, ok, err, Outcome, panic, returns}
use athera.Bitmap.Words.{
  BitMapError, out_of_range, already_set, already_free, word_bits, is_bit_set, set_bit, clear_bit,
  count_used, scan_words, alloc_range_in, free_range_in,
}

pub record BitMapView : Type 0 where
  pub words : List ℕ
  pub bits : ℕ

abbrev pub Status : Type 0
Status = Result (Unit {0}) BitMapError

unfoldable pub new : List ℕ → BitMapView
new words = record { words = words; bits = length words * word_bits }

unfoldable pub new_with_capacity : List ℕ → ℕ → Outcome BitMapView
new_with_capacity words bits =
    if leb bits (length words * word_bits)
    then returns (record { words = words; bits = bits })
    else panic

abbrev pub contains : BitMapView → ℕ → Bool
contains v index = ltb index v.bits

unfoldable pub get : BitMapView → ℕ → Result Bool BitMapError
get v index = if not (contains v index) then err out_of_range else ok (is_bit_set v.words index)

unfoldable pub is_allocated : BitMapView → ℕ → Bool
is_allocated v index = contains v index && is_bit_set v.words index

unfoldable pub set : BitMapView → ℕ → BitMapView × Status
set v index =
    if not (contains v index)
    then (v, err out_of_range)
    else (record v { words = set_bit v.words index }, ok tt)

unfoldable pub clear : BitMapView → ℕ → BitMapView × Status
clear v index =
    if not (contains v index)
    then (v, err out_of_range)
    else (record v { words = clear_bit v.words index }, ok tt)

abbrev pub find_free_from : BitMapView → ℕ → Option ℕ
find_free_from v start = scan_words v.words v.bits start true

abbrev pub find_used_from : BitMapView → ℕ → Option ℕ
find_used_from v start = scan_words v.words v.bits start false

-- `alloc` and `alloc_from` once the index is known.
unfoldable pub occupy : BitMapView → Option ℕ → BitMapView × Option ℕ
occupy v none = (v, none)
occupy v (some index) = (record v { words = set_bit v.words index }, some index)

unfoldable pub alloc : BitMapView → BitMapView × Option ℕ
alloc v = occupy v (find_free_from v 0)

unfoldable pub alloc_from : BitMapView → ℕ → BitMapView × Option ℕ
alloc_from v start = occupy v (find_free_from v start)

unfoldable pub alloc_specific : BitMapView → ℕ → BitMapView × Status
unfolding is_allocated
alloc_specific v index =
    if not (contains v index)
    then (v, err out_of_range)
    else if is_allocated v index
    then (v, err already_set)
    else (record v { words = set_bit v.words index }, ok tt)

unfoldable pub free : BitMapView → ℕ → BitMapView × Status
unfolding is_allocated
free v index =
    if not (contains v index)
    then (v, err out_of_range)
    else if not (is_allocated v index)
    then (v, err already_free)
    else (record v { words = clear_bit v.words index }, ok tt)

-- `available`: a count of all the bits that are set, also of those beyond the capacity.
unfoldable pub available : BitMapView → Outcome ℕ
available v =
    if ltb v.bits (count_used v.words) then panic else returns (v.bits - count_used v.words)

-- `alloc_range` after the search.
unfoldable pub occupy_run : BitMapView → Option (List ℕ × ℕ) → BitMapView × Option ℕ
occupy_run v none = (v, none)
occupy_run v (some (words, start)) = (record v { words = words }, some start)

-- `alloc_range` once `available` has returned.
unfoldable pub alloc_run : BitMapView → ℕ → Outcome ℕ → Outcome (BitMapView × Option ℕ)
alloc_run v n panic = panic
alloc_run v n (returns left) =
    if ltb left n
    then returns (v, none)
    else returns (occupy_run v (alloc_range_in v.words v.bits n))

unfoldable pub alloc_range : BitMapView → ℕ → Outcome (BitMapView × Option ℕ)
unfolding available
alloc_range v n = if n == 0 then returns (v, none) else alloc_run v n (available v)

-- `free_range` after `free_range_in`.
unfoldable pub release_run : BitMapView → Result (List ℕ) BitMapError → BitMapView × Status
release_run v (err e) = (v, err e)
release_run v (ok words) = (record v { words = words }, ok tt)

unfoldable pub free_range : BitMapView → ℕ → ℕ → BitMapView × Status
free_range v start end = release_run v (free_range_in v.words v.bits start end)

unfoldable pub reset : BitMapView → BitMapView
reset v = record v { words = replicate (length v.words) 0 }

-- `BitIter`, the iterator of `iter_used` and `iter_free`.
pub record BitIter : Type 0 where
  pub words : List ℕ
  pub bits : ℕ
  pub want_free : Bool
  pub position : ℕ

-- `next` after the search.
unfoldable pub advance : BitIter → Option ℕ → BitIter × Option ℕ
advance it none = (it, none)
advance it (some found) = (record it { position = found + 1 }, some found)

unfoldable pub next : BitIter → BitIter × Option ℕ
next it = advance it (scan_words it.words it.bits it.position it.want_free)
