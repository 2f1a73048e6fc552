-- ===== src/Prelude/Update.antt =====
-- A family indexed by numbers, changed at one of them.
use Prim.Native.Nat.{ℕ}
use mathlib.Core.Path.{◌≡◌, refl, subst}
use mathlib.Core.Logic.{◌≢◌}
use mathlib.Core.Bool.{false}
use native.Mathlib.Omega.{arith}
use native.Mathlib.Decide.{ℕ_discrete}
use athera.Prelude.Tests.{◌==◌, ==_iff, if◌then◌else◌}

unfoldable pub update {ℓ} : {A : Type ℓ} → (ℕ → A) → ℕ → A → ℕ → A
update xs i x j = if i == j then x else xs j

module _ {ℓ} {A : Type ℓ} where
  -- A property of the new member, and of the others as they were.
  pub update-all {κ} :
      (P : ℕ → A → Type κ) (xs : ℕ → A) (i : ℕ) (x : A)
      → P i x
      → ((j : ℕ) → i ≢ j → P j (xs j))
      → (j : ℕ) → P j (update xs i x j)
  unfolding update
  update-all P xs i x p h j = elim (ℕ_discrete i j) [
    | yes e ↦ let same = (==_iff i j).1 e in rw same (subst (λ j. P j x) e p)
    | no n ↦ let other : (i == j) ≡ false = ground (arith, n) in rw other (h j n)
  ]

  pub update-ne : (xs : ℕ → A) (i : ℕ) (x : A) (j : ℕ) → i ≢ j → update xs i x j ≡ xs j
  update-ne xs i x j n =
      update-all (λ j y. i ≢ j → y ≡ xs j) xs i x (λ m. absurd (m refl)) (λ j m _. refl) j n

  pub update_self : (xs : ℕ → A) (i : ℕ) (x : A) → update xs i x i ≡ x
  unfolding update
  update_self xs i x = let same = (==_iff i i).1 refl in rw same refl
