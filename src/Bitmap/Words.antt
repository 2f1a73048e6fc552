-- ===== src/Bitmap/Words.antt =====
-- The shared bottom layer of crates/athera-bitmap/src/lib.rs: bit operations on a slice of machine
-- words. A word is a number below `2 ^ word_bits`. An index beyond the words, where the source
-- panics, reads zero and writes nothing: every caller keeps below the capacity.
pub mod Bits
pub mod Count
pub mod Scan
pub mod Search
pub mod Runs
use Prim.Native.Nat.{bit_and, bit_or}
use athera.Prelude.{
  ℕ, zero, suc, ◌+◌, ◌-◌, ◌*◌, ◌/◌, ◌%◌, ◌^◌, Option, none, some, Bool, true, false, not, ◌&&◌,
  ◌||◌, List, [], ◌∷◌, length, get_or, set, drop, ltb, leb, ◌==◌, if◌then◌else◌,
}
use athera.Prelude.Bits.{bit_not, testbit}
use athera.Prelude.Count.{count}
use athera.Prelude.Result.{Result, ok, err}

pub data BitMapError : Type 0 where
  out_of_range : BitMapError
  already_set : BitMapError
  already_free : BitMapError
  length_mismatch : BitMapError
  misaligned : BitMapError

abbrev pub word_bits : ℕ
word_bits = 64

abbrev pub words_for : ℕ → ℕ
words_for bits = (bits + 63) / 64

abbrev pub is_empty {ℓ} : {A : Type ℓ} → List A → Bool
is_empty [] = true
is_empty (x ∷ xs) = false

unfoldable pub is_bit_set : List ℕ → ℕ → Bool
is_bit_set words index = not (bit_and (get_or words (index / 64) 0) (2 ^ (index % 64)) == 0)

unfoldable pub set_bit : List ℕ → ℕ → List ℕ
set_bit words index =
    set words (index / 64) (bit_or (get_or words (index / 64) 0) (2 ^ (index % 64)))

unfoldable pub clear_bit : List ℕ → ℕ → List ℕ
clear_bit words index =
    set words (index / 64) (bit_and (get_or words (index / 64) 0) (bit_not 64 (2 ^ (index % 64))))

-- `usize::count_ones`.
unfoldable pub count_ones : ℕ → ℕ
count_ones w = count (testbit w) 64

unfoldable pub count_used : List ℕ → ℕ
count_used [] = 0
count_used (w ∷ ws) = count_ones w + count_used ws

-- `usize::trailing_zeros` of a word of `k` bits.
unfoldable pub trailing_zeros : ℕ → ℕ → ℕ
trailing_zeros zero w = 0
trailing_zeros (suc k) w = let rest = trailing_zeros k (w / 2) in if w % 2 == 1 then 0 else suc rest

-- The word of one round of the loop in `scan_words`, masked below and, in the last word, above.
unfoldable pub masked : ℕ → Bool → ℕ → Bool → ℕ → ℕ
masked bits want_free low_mask is_last w =
    let v = if want_free then bit_not 64 (bit_or w low_mask) else bit_and w (bit_not 64 low_mask) in
    if is_last && not (bits % 64 == 0) then bit_and v (2 ^ (bits % 64) - 1) else v

-- The loop of `scan_words` at word number `word`, on the words from there on.
unfoldable pub scan_loop : ℕ → Bool → ℕ → ℕ → List ℕ → Option ℕ
scan_loop bits want_free word low_mask [] = none
scan_loop bits want_free word low_mask (w ∷ ws) =
    let v = masked bits want_free low_mask (is_empty ws) w in
    let rest = scan_loop bits want_free (word + 1) 0 ws in
    if not (v == 0)
    then some (word * 64 + trailing_zeros 64 v)
    else if is_empty ws
    then none
    else rest

unfoldable pub scan_words : List ℕ → ℕ → ℕ → Bool → Option ℕ
scan_words words bits start want_free =
    if is_empty words || leb bits start
    then none
    else scan_loop bits want_free (start / 64) (2 ^ (start % 64) - 1) (drop (start / 64) words)

-- The loop of `alloc_range_in` from bit `i` on, for `k` more bits.
unfoldable pub find_run : List ℕ → ℕ → ℕ → ℕ → ℕ → ℕ → Option ℕ
find_run words n zero i run_start run_len = none
find_run words n (suc k) i run_start run_len =
    let start = if run_len == 0 then i else run_start in
    let reset = find_run words n k (i + 1) run_start 0 in
    let longer = find_run words n k (i + 1) start (run_len + 1) in
    if is_bit_set words i then reset else if run_len + 1 == n then some start else longer

unfoldable pub set_run : List ℕ → ℕ → ℕ → List ℕ
set_run words start zero = words
set_run words start (suc n) = set_run (set_bit words start) (start + 1) n

unfoldable pub clear_run : List ℕ → ℕ → ℕ → List ℕ
clear_run words start zero = words
clear_run words start (suc n) = clear_run (clear_bit words start) (start + 1) n

unfoldable pub alloc_range_in : List ℕ → ℕ → ℕ → Option (List ℕ × ℕ)
alloc_range_in words bits n = if n == 0 then none else elim (find_run words n bits 0 0 0) [
  | none ↦ none
  | some start ↦ some (set_run words start n, start)
]

-- The first loop of `free_range_in`: whether all `n` bits are set.
unfoldable pub all_set : List ℕ → ℕ → ℕ → Bool
all_set words start zero = true
all_set words start (suc n) = if is_bit_set words start then all_set words (start + 1) n else false

unfoldable pub free_range_in : List ℕ → ℕ → ℕ → ℕ → Result (List ℕ) BitMapError
free_range_in words bits start end =
    if ltb end start || ltb bits end
    then err out_of_range
    else if all_set words start (end - start)
    then ok (clear_run words start (end - start))
    else err already_free
