-- ===== src/Rand/Tests.antt =====
-- States at which the theorems on src/crates/athera-rand are applied, and outputs that are known.
use athera.Prelude.{◌≡◌, ◌≢◌, refl, arith, [], ◌∷◌}
use athera.Rand.{
  XoShiro256StarStar, mix, seed, rotate_left, advance, output, step, after, new, to_le_bytes,
  fill_chunks, fill_bytes, jump_with, jump_words,
}
use athera.Rand.Nonzero.{Words, after-seed-nonzero}
use athera.Rand.Bytes.{Fills, fill_bytes-Fills}
use athera.Rand.Linear.{jump_with-after}

abbrev one_to_four : XoShiro256StarStar
one_to_four = record { s0 = 1; s1 = 2; s2 = 3; s3 = 4 }

one_to_four-Words : Words one_to_four
one_to_four-Words = record {
  s0 = omega arith;
  s1 = omega arith;
  s2 = omega arith;
  s3 = omega arith;
}

-- The first answer of `splitmix64` from the state 0.
mixed : mix 11400714819323198485 ≡ 16294208416658607535
unfolding mix
mixed = refl

-- The third output of the generator at 1, 2, 3, 4.
third : output (after 2 one_to_four) ≡ 1509978240
unfolding output after step advance rotate_left
third = refl

ten_bytes : (fill_bytes one_to_four 10).1 ≡ 0 ∷ 45 ∷ 0 ∷ 0 ∷ 0 ∷ 0 ∷ 0 ∷ 0 ∷ 0 ∷ 0 ∷ []
unfolding fill_bytes fill_chunks to_le_bytes output step advance rotate_left
ten_bytes = refl

after-seed-nonzero_example : after 3 (seed 0) ≢ new
after-seed-nonzero_example = after-seed-nonzero 0 3

fill_bytes-Fills_example : Fills one_to_four 10 (fill_bytes one_to_four 10)
fill_bytes-Fills_example = fill_bytes-Fills one_to_four 10

jump_with-after_example :
    jump_with jump_words (after 2 one_to_four) ≡ after 2 (jump_with jump_words one_to_four)
jump_with-after_example = jump_with-after 2 jump_words one_to_four one_to_four-Words
