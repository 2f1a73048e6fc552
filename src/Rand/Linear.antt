-- ===== src/Rand/Linear.antt =====
-- `step` of src/crates/athera-rand on sums by `^`, and `jump_with`, which makes such sums.
use Prim.Native.Nat.{bit_and, bit_xor}
use athera.Prelude.{
  ℕ, zero, suc, ◌+◌, ◌*◌, ◌/◌, ◌%◌, ◌^◌, ◌<◌, ◌≡◌, refl, sym, ap, ◌∙◌, arith, not, ◌==◌, List, [],
  ◌∷◌, Bool, true, false, if◌then◌else◌,
}
use athera.Prelude.Bits.Xor.{bit_xor-bound}
use athera.Prelude.Bits.Linear.{bit_xor_exchange, bit_xor_join}
use athera.Rand.{
  XoShiro256StarStar, rotate_left, add_state, advance, step, new, after, jump_bits, jump_items,
  jump_with,
}
use athera.Rand.Nonzero.{Words, advance-Words}

-- A sum of words, cut at digit 19.
xor_cut19 :
    (a b : ℕ)
    → bit_xor a b ≡ 2 ^ 19 * bit_xor (a / 2 ^ 19) (b / 2 ^ 19) + bit_xor (a % 2 ^ 19) (b % 2 ^ 19)
xor_cut19 a b =
    let left : a ≡ 2 ^ 19 * (a / 2 ^ 19) + a % 2 ^ 19 = omega arith in
    let right : b ≡ 2 ^ 19 * (b / 2 ^ 19) + b % 2 ^ 19 = omega arith in
    let low : a % 2 ^ 19 < 2 ^ 19 = omega arith in
    let low' : b % 2 ^ 19 < 2 ^ 19 = omega arith in
    ap (λ x. bit_xor x b) left
    ∙ ap (bit_xor (2 ^ 19 * (a / 2 ^ 19) + a % 2 ^ 19)) right
    ∙ bit_xor_join 19 (a / 2 ^ 19) (b / 2 ^ 19) (a % 2 ^ 19) (b % 2 ^ 19) low low'

rotate_left-xor :
    (a b : ℕ)
    → a < 2 ^ 64
    → b < 2 ^ 64
    → bit_xor (rotate_left a 45) (rotate_left b 45) ≡ rotate_left (bit_xor a b) 45
unfolding rotate_left
rotate_left-xor a b p q =
    let l = a % 2 ^ 19 in
    let m = b % 2 ^ 19 in
    let left : a * 2 ^ 45 % 2 ^ 64 + a / 2 ^ 19 ≡ 2 ^ 45 * l + a / 2 ^ 19 = omega arith in
    let right : b * 2 ^ 45 % 2 ^ 64 + b / 2 ^ 19 ≡ 2 ^ 45 * m + b / 2 ^ 19 = omega arith in
    let high : a / 2 ^ 19 < 2 ^ 45 = omega arith in
    let high' : b / 2 ^ 19 < 2 ^ 45 = omega arith in
    let low = bit_xor-bound 19 l m (omega arith) (omega arith) in
    let joined = bit_xor_join 45 l m (a / 2 ^ 19) (b / 2 ^ 19) high high' in
    ap (λ x. bit_xor x (b * 2 ^ 45 % 2 ^ 64 + b / 2 ^ 19)) left
    ∙ ap (bit_xor (2 ^ 45 * l + a / 2 ^ 19)) right
    ∙ joined
    ∙ omega (arith, xor_cut19 a b, low)

shift-xor :
    (a b : ℕ) → bit_xor (a * 2 ^ 17 % 2 ^ 64) (b * 2 ^ 17 % 2 ^ 64) ≡ bit_xor a b * 2 ^ 17 % 2 ^ 64
shift-xor a b =
    let l = a % 2 ^ 47 in
    let m = b % 2 ^ 47 in
    let cut : a ≡ 2 ^ 47 * (a / 2 ^ 47) + l = omega arith in
    let cut' : b ≡ 2 ^ 47 * (b / 2 ^ 47) + m = omega arith in
    let left : a * 2 ^ 17 % 2 ^ 64 ≡ 2 ^ 17 * l + 0 = omega arith in
    let right : b * 2 ^ 17 % 2 ^ 64 ≡ 2 ^ 17 * m + 0 = omega arith in
    let low = bit_xor-bound 47 l m (omega arith) (omega arith) in
    let whole : bit_xor a b ≡ 2 ^ 47 * bit_xor (a / 2 ^ 47) (b / 2 ^ 47) + bit_xor l m =
      ap (λ x. bit_xor x b) cut
      ∙ ap (bit_xor (2 ^ 47 * (a / 2 ^ 47) + l)) cut'
      ∙ bit_xor_join 47 (a / 2 ^ 47) (b / 2 ^ 47) l m (omega arith) (omega arith) in
    ap (λ x. bit_xor x (b * 2 ^ 17 % 2 ^ 64)) left
    ∙ ap (bit_xor (2 ^ 17 * l + 0)) right
    ∙ bit_xor_join 17 l m 0 0 (omega arith) (omega arith)
    ∙ omega (arith, whole, low)

advance-add_state :
    (s t : XoShiro256StarStar)
    → Words s
    → Words t
    → add_state (advance s) (advance t) ≡ advance (add_state s t)
unfolding advance add_state
advance-add_state s t p q =
    let s2 = bit_xor s.s2 s.s0 in
    let s3 = bit_xor s.s3 s.s1 in
    let t2 = bit_xor t.s2 t.s0 in
    let t3 = bit_xor t.s3 t.s1 in
    let two : bit_xor s2 t2 ≡ bit_xor (bit_xor s.s2 t.s2) (bit_xor s.s0 t.s0) =
      bit_xor_exchange (s.s2) (s.s0) (t.s2) (t.s0) in
    let three : bit_xor s3 t3 ≡ bit_xor (bit_xor s.s3 t.s3) (bit_xor s.s1 t.s1) =
      bit_xor_exchange (s.s3) (s.s1) (t.s3) (t.s1) in
    let shift = bit_xor_exchange s2 (s.s1 * 2 ^ 17 % 2 ^ 64) t2 (t.s1 * 2 ^ 17 % 2 ^ 64) in
    let below = bit_xor-bound 64 (s.s3) (s.s1) (p.s3) (p.s1) in
    let below' = bit_xor-bound 64 (t.s3) (t.s1) (q.s3) (q.s1) in
    let first = bit_xor_exchange (s.s0) s3 (t.s0) t3 ∙ ap (bit_xor (bit_xor s.s0 t.s0)) three in
    let second = bit_xor_exchange (s.s1) s2 (t.s1) t2 ∙ ap (bit_xor (bit_xor s.s1 t.s1)) two in
    let fourth = rotate_left-xor s3 t3 below below' ∙ ap (λ x. rotate_left x 45) three in
    let third =
      shift
      ∙ ap (λ x. bit_xor x (bit_xor (s.s1 * 2 ^ 17 % 2 ^ 64) (t.s1 * 2 ^ 17 % 2 ^ 64))) two
      ∙ ap (bit_xor (bit_xor (bit_xor s.s2 t.s2) (bit_xor s.s0 t.s0))) (shift-xor (s.s1) (t.s1)) in
    λ i. record { s0 = first i; s1 = second i; s2 = third i; s3 = fourth i }

chosen :
    (c : Bool) (sum s : XoShiro256StarStar)
    → Words sum
    → Words s
    → (if c then add_state (advance sum) (advance s) else advance sum)
      ≡ advance (if c then add_state sum s else sum)
chosen true sum s p q = advance-add_state sum s p q
chosen false sum s p q = refl

add_state-Words : (s t : XoShiro256StarStar) → Words s → Words t → Words (add_state s t)
unfolding add_state
add_state-Words s t p q = record {
  s0 = bit_xor-bound 64 (s.s0) (t.s0) (p.s0) (q.s0);
  s1 = bit_xor-bound 64 (s.s1) (t.s1) (p.s1) (q.s1);
  s2 = bit_xor-bound 64 (s.s2) (t.s2) (p.s2) (q.s2);
  s3 = bit_xor-bound 64 (s.s3) (t.s3) (p.s3) (q.s3);
}

chosen-Words :
    (c : Bool) (sum s : XoShiro256StarStar)
    → Words sum
    → Words s
    → Words (if c then add_state sum s else sum)
chosen-Words true sum s p q = add_state-Words sum s p q
chosen-Words false sum s p q = p

-- The sums and the state `r'` are one step on from `r`, all words.
record OneOn (r' r : XoShiro256StarStar × XoShiro256StarStar) : Type 0 where
  sum : r'.0 ≡ advance (r.0)
  state : r'.1 ≡ advance (r.1)
  sum_words : Words (r.0)
  state_words : Words (r.1)

jump_bits-OneOn :
    (item b n : ℕ) (sum s : XoShiro256StarStar)
    → Words sum
    → Words s
    → OneOn (jump_bits item b n (advance sum) (advance s)) (jump_bits item b n sum s)
unfolding jump_bits step
jump_bits-OneOn item b zero sum s p q = record {
  sum = refl;
  state = refl;
  sum_words = p;
  state_words = q;
}
jump_bits-OneOn item b (suc n) sum s p q =
    let c = not (bit_and item (2 ^ b) == 0) in
    let next = if c then add_state sum s else sum in
    rw (chosen c sum s p q) (
      jump_bits-OneOn item (b + 1) n next (advance s) (chosen-Words c sum s p q)
        (advance-Words s q))

jump_items-OneOn :
    (items : List ℕ) (sum s : XoShiro256StarStar)
    → Words sum
    → Words s
    → OneOn (jump_items items (advance sum) (advance s)) (jump_items items sum s)
unfolding jump_items
jump_items-OneOn [] sum s p q = record { sum = refl; state = refl; sum_words = p; state_words = q }
jump_items-OneOn (item ∷ items) sum s p q =
    let f = jump_bits-OneOn item 0 64 sum s p q in
    let r = jump_bits item 0 64 sum s in
    rw (f.sum, f.state) (jump_items-OneOn items (r.0) (r.1) (f.sum_words) (f.state_words))

advance-new : advance new ≡ new
unfolding advance rotate_left
advance-new = refl

new-Words : Words new
new-Words = record { s0 = omega arith; s1 = omega arith; s2 = omega arith; s3 = omega arith }

jump_with-advance :
    (items : List ℕ) (s : XoShiro256StarStar)
    → Words s
    → jump_with items (advance s) ≡ advance (jump_with items s)
unfolding jump_with
jump_with-advance items s w =
    ap (λ z. (jump_items items z (advance s)).0) (sym advance-new)
    ∙ (jump_items-OneOn items new s new-Words w).sum

-- Whatever the jump words, a generator whose four words are words of 64 bits reaches the same
-- state when it jumps after `k` steps and when it takes `k` steps after the jump.
pub jump_with-after :
    (k : ℕ) (items : List ℕ) (s : XoShiro256StarStar)
    → Words s
    → jump_with items (after k s) ≡ after k (jump_with items s)
unfolding after step
jump_with-after zero items s w = refl
jump_with-after (suc k) items s w =
    jump_with-after k items (advance s) (advance-Words s w)
    ∙ ap (after k) (jump_with-advance items s w)
