-- ===== src/Bitmap/Map.antt =====
-- `BitMap` of crates/athera-bitmap/src/lib.rs, method by method. `WORDS` is the number of words. The
-- counter panics where it would go below zero.
pub mod Valid
pub mod Ops
pub mod Start
pub mod Ranges
pub mod Alloc
use athera.Prelude.{
  ℕ, zero, suc, ◌+◌, ◌-◌, ◌*◌, ◌/◌, ◌%◌, Option, none, some, Bool, true, false, not, ◌&&◌, ◌||◌,
  List, [], ◌∷◌, ◌++◌, length, replicate, take, ltb, leb, ◌==◌, if◌then◌else◌,
}
use athera.Prelude.Result.{Result, ok, err, Outcome, panic, returns}
use athera.Bitmap.Words.{
  BitMapError, out_of_range, already_set, already_free, length_mismatch, word_bits, is_bit_set,
  set_bit, clear_bit, count_used, scan_words, alloc_range_in, free_range_in,
}

pub record BitMap : Type 0 where
  pub words : List ℕ
  pub bits : ℕ
  pub used : ℕ

abbrev pub Status : Type 0
Status = Result (Unit {0}) BitMapError

unfoldable pub new : ℕ → BitMap
new n = record { words = replicate n 0; bits = n * word_bits; used = 0 }

unfoldable pub new_with_capacity : ℕ → ℕ → Outcome BitMap
new_with_capacity n bits =
    if leb bits (n * word_bits)
    then returns (record { words = replicate n 0; bits = bits; used = 0 })
    else panic

abbrev pub available : BitMap → ℕ
available m = m.bits - m.used

abbrev pub contains : BitMap → ℕ → Bool
contains m index = ltb index m.bits

unfoldable pub get : BitMap → ℕ → Result Bool BitMapError
get m index = if not (contains m index) then err out_of_range else ok (is_bit_set m.words index)

unfoldable pub is_allocated : BitMap → ℕ → Bool
is_allocated m index = contains m index && is_bit_set m.words index

unfoldable pub is_free : BitMap → ℕ → Bool
unfolding is_allocated
is_free m index = contains m index && not (is_allocated m index)

-- `self.used -= n`.
abbrev pub less : BitMap → List ℕ → ℕ → Outcome (BitMap × Status)
less m words n =
    if ltb m.used n then panic else returns (record m { words = words; used = m.used - n }, ok tt)

unfoldable pub set : BitMap → ℕ → BitMap × Status
unfolding is_allocated
set m index =
    if not (contains m index)
    then (m, err out_of_range)
    else if not (is_allocated m index)
    then (record m { words = set_bit m.words index; used = m.used + 1 }, ok tt)
    else (m, ok tt)

unfoldable pub clear : BitMap → ℕ → Outcome (BitMap × Status)
unfolding is_allocated
clear m index =
    if not (contains m index)
    then returns (m, err out_of_range)
    else if is_allocated m index
    then less m (clear_bit m.words index) 1
    else returns (m, ok tt)

unfoldable pub find_free_from : BitMap → ℕ → Option ℕ
find_free_from m start = if m.used == m.bits then none else scan_words m.words m.bits start true

abbrev pub find_free : BitMap → Option ℕ
find_free m = find_free_from m 0

unfoldable pub find_used_from : BitMap → ℕ → Option ℕ
find_used_from m start = if m.used == 0 then none else scan_words m.words m.bits start false

abbrev pub find_used : BitMap → Option ℕ
find_used m = find_used_from m 0

-- `alloc` and `alloc_from` once the index is known.
unfoldable pub occupy : BitMap → Option ℕ → BitMap × Option ℕ
occupy m none = (m, none)
occupy m (some index) = (record m { words = set_bit m.words index; used = m.used + 1 }, some index)

unfoldable pub alloc : BitMap → BitMap × Option ℕ
alloc m = occupy m (find_free m)

unfoldable pub alloc_from : BitMap → ℕ → BitMap × Option ℕ
alloc_from m start = occupy m (find_free_from m start)

unfoldable pub alloc_specific : BitMap → ℕ → BitMap × Status
unfolding is_allocated
alloc_specific m index =
    if not (contains m index)
    then (m, err out_of_range)
    else if is_allocated m index
    then (m, err already_set)
    else (record m { words = set_bit m.words index; used = m.used + 1 }, ok tt)

unfoldable pub free : BitMap → ℕ → Outcome (BitMap × Status)
unfolding is_allocated
free m index =
    if not (contains m index)
    then returns (m, err out_of_range)
    else if not (is_allocated m index)
    then returns (m, err already_free)
    else less m (clear_bit m.words index) 1

-- `alloc_range` after the search.
unfoldable pub occupy_run : BitMap → ℕ → Option (List ℕ × ℕ) → BitMap × Option ℕ
occupy_run m n none = (m, none)
occupy_run m n (some (words, start)) = (record m { words = words; used = m.used + n }, some start)

unfoldable pub alloc_range : BitMap → ℕ → BitMap × Option ℕ
alloc_range m n =
    if n == 0 || ltb (available m) n
    then (m, none)
    else occupy_run m n (alloc_range_in m.words m.bits n)

-- `free_range` after `free_range_in`.
unfoldable pub release_run : BitMap → ℕ → Result (List ℕ) BitMapError → Outcome (BitMap × Status)
release_run m len (err e) = returns (m, err e)
release_run m len (ok words) = less m words len

unfoldable pub free_range : BitMap → ℕ → ℕ → Outcome (BitMap × Status)
free_range m start end = release_run m (end - start) (free_range_in m.words m.bits start end)

unfoldable pub reset : BitMap → BitMap
reset m = record m { words = replicate (length m.words) 0; used = 0 }

unfoldable pub from_words : List ℕ → BitMap
from_words words = record {
  words = words;
  bits = length words * word_bits;
  used = count_used words;
}

unfoldable pub try_from_words : ℕ → List ℕ → Result BitMap BitMapError
try_from_words n words =
    if ltb n (length words)
    then err length_mismatch
    else ok (record {
      words = words ++ replicate (n - length words) 0;
      bits = length words * word_bits;
      used = count_used words;
    })
