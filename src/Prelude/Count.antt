-- ===== src/Prelude/Count.antt =====
-- How many numbers below a bound pass a test, and how a change at one number moves the count.
use Prim.Native.Nat.{ℕ, zero, suc, ◌+◌, ◌-◌, ◌≤◌, ◌<◌, min}
use mathlib.Core.Path.{◌≡◌, refl, ap, ◌∙◌}
use mathlib.Core.Logic.{◌≢◌}
use mathlib.Core.Bool.{Bool, true, false, ◌&&◌, ◌||◌}
use native.Mathlib.Omega.{arith}
use native.Mathlib.Decide.{ℕ_discrete}
use athera.Prelude.Tests.{ltb, leb}

abbrev pub to_nat : Bool → ℕ
to_nat true = 1
to_nat false = 0

unfoldable pub count : (ℕ → Bool) → ℕ → ℕ
count p zero = 0
count p (suc n) = count p n + to_nat (p n)

pub count-le : (p : ℕ → Bool) (n : ℕ) → count p n ≤ n
unfolding count
count-le p zero = omega arith
count-le p (suc n) = ground (arith, count-le p n)

pub count_congr : (p q : ℕ → Bool) (n : ℕ) → ((i : ℕ) → i < n → p i ≡ q i) → count p n ≡ count q n
unfolding count
count_congr p q zero h = refl
count_congr p q (suc n) h =
    ground (arith, count_congr p q n (λ i l. h i (omega arith)), h n (omega arith))

-- One number more passes.
pub count_insert :
    (p q : ℕ → Bool) (n j : ℕ)
    → j < n
    → p j ≡ false
    → q j ≡ true
    → ((i : ℕ) → i ≢ j → p i ≡ q i)
    → count q n ≡ count p n + 1
unfolding count
count_insert p q zero j l pj qj h = elim l [ ]
count_insert p q (suc n) j l pj qj h = elim (ℕ_discrete n j) [
  | yes e ↦
      let pn : p n ≡ false = ap p e ∙ pj in
      let qn : q n ≡ true = ap q e ∙ qj in
      ground (arith, count_congr p q n (λ i k. h i (omega arith)))
  | no e ↦ ground (arith, count_insert p q n j (omega arith) pj qj h, h n e)
]

pub count_none : (p : ℕ → Bool) (n : ℕ) → ((i : ℕ) → i < n → p i ≡ false) → count p n ≡ 0
unfolding count
count_none p zero h = refl
count_none p (suc n) h =
    ground (arith, count_none p n (λ i l. h i (omega arith)), h n (omega arith))

-- An interval holds as many numbers as it is long.
pub count_interval : (s e n : ℕ) → s ≤ e → count (λ i. leb s i && ltb i e) n ≡ min e n - min s n
unfolding count
count_interval s e zero h = omega arith
count_interval s e (suc n) h = ground (arith, count_interval s e n h)

-- Two tests that never pass together.
pub count_disjoint :
    (p q : ℕ → Bool) (n : ℕ)
    → ((i : ℕ) → i < n → (p i && q i) ≡ false)
    → count (λ i. p i || q i) n ≡ count p n + count q n
unfolding count
count_disjoint p q zero h = omega arith
count_disjoint p q (suc n) h =
    ground (arith, count_disjoint p q n (λ i l. h i (omega arith)), h n (omega arith))
