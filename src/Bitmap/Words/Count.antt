-- ===== src/Bitmap/Words/Count.antt =====
-- `count_used` counts the bits of the row, and the loops that set or clear a run of bits.
use athera.Prelude.{
  ℕ, zero, suc, ◌+◌, ◌*◌, ◌/◌, ◌%◌, ◌≤◌, ◌<◌, ◌≡◌, refl, sym, ap, ◌∙◌, Bool, true, false, not, ◌&&◌,
  ◌||◌, List, [], ◌∷◌, length, drop, ltb, leb, arith, inl, inr, Bool-cases, ℕ_discrete,
}
use athera.Prelude.Bits.{testbit, testbit-zero}
use athera.Prelude.Count.{count, count_congr, count_insert}
use athera.Bitmap.Words.{
  is_bit_set, set_bit, clear_bit, count_ones, count_used, set_run, clear_run, all_set,
}
use athera.Bitmap.Words.Bits.{
  bit, IsWords, is_bit_set-bit, set_bit-IsWords, clear_bit-IsWords, length-set_bit,
  length-clear_bit, bit-set_bit, bit-clear_bit,
}

count_split : (p : ℕ → Bool) (n m : ℕ) → count p (m + n) ≡ count p n + count (λ i. p (i + n)) m
unfolding count
count_split p n zero =
    let zero_left : 0 + n ≡ n = omega arith in omega (arith, ap (count p) zero_left)
count_split p n (suc m) =
    let more : suc m + n ≡ suc (m + n) = omega arith in
    omega (arith, ap (count p) more, count_split p n m)

pub bit_first : (w : ℕ) (ws : List ℕ) (i : ℕ) → i < 64 → bit (w ∷ ws) i ≡ testbit w i
unfolding bit
bit_first w ws i l =
    let q : i / 64 ≡ 0 = omega arith in let r : i % 64 ≡ i = omega arith in rw (q, r) refl

pub bit_rest : (w : ℕ) (ws : List ℕ) (i : ℕ) → bit (w ∷ ws) (i + 64) ≡ bit ws i
unfolding bit
bit_rest w ws i =
    let q : (i + 64) / 64 ≡ suc (i / 64) = omega arith in
    let r : (i + 64) % 64 ≡ i % 64 = omega arith in rw (q, r) refl

-- The sum of `count_ones` over the words is the count of the set bits of the whole row.
pub count_used-eq-count : (ws : List ℕ) → count_used ws ≡ count (bit ws) (64 * length ws)
unfolding count_used count_ones count
count_used-eq-count [] = refl
count_used-eq-count (w ∷ ws) =
    let size : 64 * length (w ∷ ws) ≡ 64 * length ws + 64 = omega arith in
    rw size (
      omega (
        arith,
        count_split (bit (w ∷ ws)) 64 (64 * length ws),
        count_congr (bit (w ∷ ws)) (testbit w) 64 (bit_first w ws),
        count_congr (λ i. bit (w ∷ ws) (i + 64)) (bit ws) (64 * length ws) (λ i l. bit_rest w ws i),
        count_used-eq-count ws,
      ))

pub bit-drop : (n : ℕ) (ws : List ℕ) (j : ℕ) → bit (drop n ws) j ≡ bit ws (64 * n + j)
unfolding bit
bit-drop zero ws j = let same : j ≡ 64 * 0 + j = omega arith in ap (bit ws) same
bit-drop (suc n) [] j = rw (testbit-zero (j % 64), testbit-zero ((64 * suc n + j) % 64)) refl
bit-drop (suc n) (w ∷ ws) j =
    let more : 64 * suc n + j ≡ 64 * n + j + 64 = omega arith in
    rw more (bit-drop n ws j ∙ sym (bit_rest w ws (64 * n + j)))

-- What a write leaves: words of the same number that fit the machine.
pub record Keeps (ws vs : List ℕ) : Type 0 where
  pub words : IsWords vs
  pub same_length : length vs ≡ length ws

-- A run of `n` clear bits from `start` is set.
pub record SetsRun (ws : List ℕ) (start n : ℕ) (vs : List ℕ) : Type 0 where
  pub keeps : Keeps ws vs
  pub bits : (j : ℕ) → bit vs j ≡ (bit ws j || (leb start j && ltb j (start + n)))

pub record ClearsRun (ws : List ℕ) (start n : ℕ) (vs : List ℕ) : Type 0 where
  pub keeps : Keeps ws vs
  pub bits : (j : ℕ) → bit vs j ≡ (bit ws j && not (leb start j && ltb j (start + n)))

pub set_run-SetsRun :
    (ws : List ℕ) (start n : ℕ)
    → IsWords ws
    → start + n ≤ 64 * length ws
    → SetsRun ws start n (set_run ws start n)
unfolding set_run
set_run-SetsRun ws start zero k l = record {
  keeps = record { words = k; same_length = refl };
  bits = λ j. ground arith;
}
set_run-SetsRun ws start (suc n) k l =
    let size = length-set_bit ws start k in
    let rest =
      set_run-SetsRun (set_bit ws start) (start + 1) n (set_bit-IsWords ws start k)
        (omega (arith, size)) in
    record {
      keeps = record { words = rest.keeps.words; same_length = rest.keeps.same_length ∙ size };
      bits = λ j. ground (arith, rest.bits j, bit-set_bit ws start k (omega arith) j);
    }

pub clear_run-ClearsRun :
    (ws : List ℕ) (start n : ℕ)
    → IsWords ws
    → start + n ≤ 64 * length ws
    → ClearsRun ws start n (clear_run ws start n)
unfolding clear_run
clear_run-ClearsRun ws start zero k l = record {
  keeps = record { words = k; same_length = refl };
  bits = λ j. ground arith;
}
clear_run-ClearsRun ws start (suc n) k l =
    let size = length-clear_bit ws start k in
    let rest =
      clear_run-ClearsRun (clear_bit ws start) (start + 1) n (clear_bit-IsWords ws start k)
        (omega (arith, size)) in
    record {
      keeps = record { words = rest.keeps.words; same_length = rest.keeps.same_length ∙ size };
      bits = λ j. ground (arith, rest.bits j, bit-clear_bit ws start k (omega arith) j);
    }

-- The numbers of a run that pass a test change the count by the length of the run.
pub count_run :
    (p q : ℕ → Bool) (start len n : ℕ)
    → start + len ≤ n
    → ((j : ℕ) → start ≤ j → j < start + len → p j ≡ false)
    → ((j : ℕ) → q j ≡ (p j || (leb start j && ltb j (start + len))))
    → count q n ≡ count p n + len
count_run p q start zero n l clear h = omega (arith, count_congr q p n (λ i k. ground (arith, h i)))
count_run p q start (suc len) n l clear h =
    let mid : ℕ → Bool = λ j. p j || (leb start j && ltb j (start + len)) in
    omega (
      arith,
      count_run p mid start len n (omega arith) (λ j a b. clear j a (omega arith)) (λ j. refl),
      count_insert mid q n (start + len) (omega arith)
          (ground (arith, clear (start + len) (omega arith) (omega arith)))
          (ground (arith, h (start + len))) (λ i e. ground (arith, h i)),
    )

-- The first loop of `free_range_in` answers whether the whole run is set.
pub all_set_iff :
    (ws : List ℕ) (start n : ℕ)
    → all_set ws start n ≡ true
    → (j : ℕ) → start ≤ j
    → j < start + n
    → bit ws j ≡ true
unfolding all_set
all_set_iff ws start zero h j a b = absurd (omega arith)
all_set_iff ws start (suc n) h j a b = elim (ℕ_discrete start j) [
  | yes e ↦ ap (bit ws) (sym e) ∙ ground (arith, is_bit_set-bit ws start)
  | no e ↦ all_set_iff ws (start + 1) n (ground arith) j (omega arith) (omega arith)
]

-- Where it answers no, it met a clear bit.
pub not_all_set :
    (ws : List ℕ) (start n : ℕ)
    → all_set ws start n ≡ false
    → (j : ℕ) × (start ≤ j) × (j < start + n) × (bit ws j ≡ false)
unfolding all_set
not_all_set ws start zero h = absurd (ground arith)
not_all_set ws start (suc n) h = elim (Bool-cases (is_bit_set ws start)) [
  | inl s ↦
      let (j, a, b, c) = not_all_set ws (start + 1) n (ground arith) in
      (j, omega arith, omega arith, c)
  | inr s ↦ (start, omega arith, omega arith, sym (is_bit_set-bit ws start) ∙ s)
]
