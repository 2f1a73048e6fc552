-- ===== src/Bitmap/Tests.antt =====
-- The theorems about the bitmap at small maps, and a map whose second word lies wholly beyond its
-- capacity.
use athera.Prelude.{ℕ, ◌≡◌, refl, some, true, List, [], ◌∷◌, arith}
use athera.Bitmap.Words.{scan_words, scan_loop, masked, trailing_zeros}
use athera.Bitmap.Words.Bits.{bit, IsWords}
use athera.Bitmap.Words.Scan.{wanted}
use athera.Bitmap.Words.Search.{IsTight}
use athera.Bitmap.View.{BitMapView}
use athera.Bitmap.View.Ops.{IsView}
use athera.Bitmap.View.Iter.{drain, listing, drain-listing}
use athera.Bitmap.Map.{
  BitMap, alloc_from, alloc_range, find_free_from, from_words, new_with_capacity,
}
use athera.Bitmap.Map.Valid.{IsValid}
use athera.Bitmap.Map.Alloc.{Occupies, alloc_from-Occupies}
use athera.Bitmap.Map.Ranges.{AllocRange, alloc_range-AllocRange}
use athera.Bitmap.Map.Start.{NewWith, from_words-IsValid, new_with_capacity-NewWith}

-- Bits 0 and 2 of 64 are set.
abbrev words : List ℕ
words = 5 ∷ []

words-IsWords : IsWords words
unfolding IsWords
words-IsWords = (omega arith, omega arith)

abbrev sample : BitMap
sample = from_words words

sample-IsValid : IsValid sample
sample-IsValid = from_words-IsValid words words-IsWords

sample-IsTight : IsTight sample.bits sample.words
unfolding from_words
sample-IsTight = record { fits = omega arith; tight = omega arith }

-- Two words for ten bits, nine of which are set: the search from bit 1 answers bit 10, beyond them.
beyond_capacity : find_free_from (record { words = 1022 ∷ 0 ∷ []; bits = 10; used = 9 }) 1 ≡ some 10
unfolding find_free_from scan_words scan_loop masked trailing_zeros
beyond_capacity = refl

alloc_from-Occupies_example : Occupies sample 2 (alloc_from sample 2)
alloc_from-Occupies_example = alloc_from-Occupies sample sample-IsValid 2 sample-IsTight

alloc_range-AllocRange_example : AllocRange sample 3 (alloc_range sample 3)
alloc_range-AllocRange_example = alloc_range-AllocRange sample sample-IsValid 3

new_with_capacity-NewWith_example : NewWith 2 10 (new_with_capacity 2 10)
new_with_capacity-NewWith_example = new_with_capacity-NewWith 2 10

abbrev borrowed : BitMapView
borrowed = record { words = words; bits = 10 }

borrowed-IsView : IsView borrowed
borrowed-IsView = record { words = words-IsWords; fits = omega arith }

drain-listing_example :
    drain 11 (record { words = words; bits = 10; want_free = true; position = 0 })
    ≡ listing (λ i. wanted true (bit words i)) 0 10
drain-listing_example =
    drain-listing words 10 true words-IsWords (record { fits = omega arith; tight = omega arith })
      11 0 (omega arith)
