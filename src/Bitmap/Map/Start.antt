-- ===== src/Bitmap/Map/Start.antt =====
-- The maps that the constructors and `reset` make, and `find_used_from`.
use athera.Prelude.{
  ℕ, zero, suc, ◌-◌, ◌*◌, ◌/◌, ◌%◌, ◌≤◌, ◌<◌, ◌≡◌, refl, sym, ap, ◌∙◌, Option, false, List, [], ◌∷◌,
  ◌++◌, length, length-append, length-replicate, replicate, get_or, ltb, leb, ◌==◌, arith, inl, inr,
  Bool-cases, ltb→lt, leb→le,
}
use athera.Prelude.Bits.{testbit, testbit-zero}
use athera.Prelude.Count.{count, count_none, count_congr}
use athera.Prelude.Result.{Result, ok, err, Outcome, panic, returns}
use athera.Bitmap.Words.{BitMapError, length_mismatch}
use athera.Bitmap.Words.Bits.{bit, bit_out, IsWords}
use athera.Bitmap.Words.Count.{count_used-eq-count}
use athera.Bitmap.Words.Scan.{wanted, Finds}
use athera.Bitmap.Words.Search.{reach, bits-le-reach, scan_words-reach, scan_words_out}
use athera.Bitmap.Map.{
  BitMap, new, new_with_capacity, from_words, try_from_words, reset, find_used_from,
}
use athera.Bitmap.Map.Valid.{IsValid, empty_map}

-- The answers of `new_with_capacity`.
pub data NewWith (n bits : ℕ) : Outcome BitMap → Type 0 where
  too_many : n * 64 < bits → NewWith n bits panic
  made :
      (m : BitMap)
      → bits ≤ n * 64
      → IsValid m
      → m.bits ≡ bits
      → ((i : ℕ) → bit m.words i ≡ false)
      → NewWith n bits (returns m)

-- The answers of `try_from` on a slice of words.
pub data TryFrom (n : ℕ) (words : List ℕ) : Result BitMap BitMapError → Type 0 where
  too_long : n < length words → TryFrom n words (err length_mismatch)
  made :
      (m : BitMap)
      → length words ≤ n
      → IsValid m
      → m.bits ≡ 64 * length words
      → length m.words ≡ n
      → ((i : ℕ) → bit m.words i ≡ bit words i)
      → TryFrom n words (ok m)

abbrev zeros : ℕ → List ℕ
zeros n = replicate n 0

length-zeros : (n : ℕ) → length (zeros n) ≡ n
length-zeros n = let nil : ℕ = 0 in length-replicate n nil

get_or-zeros : (n k : ℕ) → get_or (zeros n) k 0 ≡ 0
get_or-zeros zero k = refl
get_or-zeros (suc n) zero = refl
get_or-zeros (suc n) (suc k) = get_or-zeros n k

get_or-append_zeros : (ws : List ℕ) (n k : ℕ) → get_or (ws ++ zeros n) k 0 ≡ get_or ws k 0
get_or-append_zeros [] n k = get_or-zeros n k
get_or-append_zeros (w ∷ ws) n zero = refl
get_or-append_zeros (w ∷ ws) n (suc k) = get_or-append_zeros ws n k

bit-append_zeros : (ws : List ℕ) (n i : ℕ) → bit (ws ++ zeros n) i ≡ bit ws i
unfolding bit
bit-append_zeros ws n i = ap (λ w. testbit w (i % 64)) (get_or-append_zeros ws n (i / 64))

bit-zeros : (n i : ℕ) → bit (zeros n) i ≡ false
unfolding bit
bit-zeros n i = rw (get_or-zeros n (i / 64)) (testbit-zero (i % 64))

append_zeros-IsWords : (ws : List ℕ) (n : ℕ) → IsWords ws → IsWords (ws ++ zeros n)
unfolding IsWords
append_zeros-IsWords [] zero h = omega arith
append_zeros-IsWords [] (suc n) h = (omega arith, append_zeros-IsWords [] n h)
append_zeros-IsWords (w ∷ ws) n h = (h.0, append_zeros-IsWords ws n h.1)

zeros-IsWords : (n : ℕ) → IsWords (zeros n)
unfolding IsWords
zeros-IsWords n = append_zeros-IsWords [] n (omega arith)

clear-IsValid :
    (n bits : ℕ) → bits ≤ n * 64 → IsValid (record { words = zeros n; bits = bits; used = 0 })
clear-IsValid n bits h = record {
  words = zeros-IsWords n;
  fits = omega (arith, length-zeros n);
  beyond = λ i l. bit-zeros n i;
  counted = sym (count_none (bit (zeros n)) bits (λ i l. bit-zeros n i));
}

pub new-IsValid : (n : ℕ) → IsValid (new n)
unfolding new
new-IsValid n = clear-IsValid n (n * 64) (omega arith)

-- `new_with_capacity` panics for more bits than the words have, and otherwise makes a valid map of
-- that capacity with no bit set.
pub new_with_capacity-NewWith : (n bits : ℕ) → NewWith n bits (new_with_capacity n bits)
unfolding new_with_capacity
new_with_capacity-NewWith n bits = elim (Bool-cases (leb bits (n * 64))) [
  | inr h ↦ rw h (NewWith.too_many (ground arith))
  | inl h ↦
      let l = leb→le bits (n * 64) h in
      rw h (NewWith.made _ l (clear-IsValid n bits l) refl (bit-zeros n))
]

reset-IsValid : (m : BitMap) → IsValid m → IsValid (reset m)
unfolding reset
reset-IsValid m v = clear-IsValid (length m.words) m.bits (omega (arith, v.fits))

-- `try_from` on a slice of machine words refuses one that is longer than the map, and otherwise
-- makes a valid map of the slice's bits whose counter counts them.
try_from_words-TryFrom :
    (n : ℕ) (words : List ℕ) → IsWords words → TryFrom n words (try_from_words n words)
unfolding try_from_words
try_from_words-TryFrom n words k = elim (Bool-cases (ltb n (length words))) [
  | inl h ↦ rw h (TryFrom.too_long (ltb→lt n (length words) h))
  | inr h ↦
      let size = length-append words (zeros (n - length words)) in
      let pad = length-zeros (n - length words) in
      let same = bit-append_zeros words (n - length words) in
      let bits : length words * 64 ≡ 64 * length words = omega arith in
      rw h (
        TryFrom.made _ (ground arith)
          (record {
            words = append_zeros-IsWords words (n - length words) k;
            fits = ground (arith, size, pad);
            beyond = λ i l. same i ∙ bit_out words i (omega arith);
            counted =
                count_used-eq-count words
                ∙ ap (count (bit words)) (sym bits)
                ∙ count_congr (bit words) (bit (words ++ zeros (n - length words)))
                    (length words * 64) (λ i l. sym (same i));
          })
          bits (ground (arith, size, pad)) same)
]

pub from_words-IsValid : (words : List ℕ) → IsWords words → IsValid (from_words words)
unfolding from_words
from_words-IsValid words k =
    let bits : length words * 64 ≡ 64 * length words = omega arith in
    record {
      words = k;
      fits = omega arith;
      beyond = λ i l. bit_out words i (omega arith);
      counted = count_used-eq-count words ∙ ap (count (bit words)) (sym bits);
    }

module _ (m : BitMap) (v : IsValid m) where
  -- No bit beyond the capacity is set, so the search for a set bit stops below it.
  capped :
      (start : ℕ) (r : Option ℕ)
      → Finds (λ i. wanted false (bit m.words i)) start (reach m.bits m.words) r
      → Finds (bit m.words) start m.bits r
  unfolding wanted
  capped start _ (Finds.nothing h) =
      Finds.nothing (λ i a b. h i a (omega (arith, bits-le-reach m.bits m.words v.fits)))
  capped start _ (Finds.least i a b c h) = elim (Bool-cases (ltb i m.bits)) [
    | inl l ↦ Finds.least i a (ltb→lt i m.bits l) c h
    | inr out ↦ absurd (ground (arith, v.beyond i, c))
  ]

  -- On a valid map, `find_used_from` finds the least set bit from `start` on, in any layout.
  find_used_from-Finds : (start : ℕ) → Finds (bit m.words) start m.bits (find_used_from m start)
  unfolding find_used_from
  find_used_from-Finds start = elim (Bool-cases (m.used == 0)) [
    | inl e ↦ rw e (Finds.nothing (λ i a b. empty_map m v (ground arith) i))
    | inr ne ↦ rw ne (elim (Bool-cases (ltb start m.bits)) [
      | inl l ↦
          capped start _
            (scan_words-reach m.words m.bits start false v.words v.fits (ltb→lt start m.bits l))
      | inr out ↦
          rw (scan_words_out m.words m.bits start false (ground arith))
            (Finds.nothing (λ i a b. absurd (ground arith)))
    ])
  ]
