-- ===== src/Prelude/BTreeMap.antt =====
-- `BTreeMap` of the standard library over number keys: an association list in the order of its
-- keys, with the calls that the program makes.
use Prim.Native.Nat.{ℕ, suc, ◌≤◌, ◌<◌}
use mathlib.Core.Path.{◌≡◌, refl}
use mathlib.Core.Option.{Option, none, some}
use native.Mathlib.Omega.{arith}
use mathlib.Core.Logic.{inl, inr}
use athera.Prelude.Tests.{Option-cases, ltb, ◌==◌, if◌then◌else◌}

pub data BTreeMap {ℓ} (V : Type ℓ) : Type ℓ where
  empty : BTreeMap V
  entry : ℕ → V → BTreeMap V → BTreeMap V

abbrev pub or_else {ℓ} : {A : Type ℓ} → Option A → Option A → Option A
or_else (some a) b = some a
or_else none b = b

module _ {ℓ} {V : Type ℓ} where
  unfoldable pub get : ℕ → BTreeMap V → Option V
  get k empty = none
  get k (entry j v m) = if j == k then some v else get k m

  unfoldable pub insert : ℕ → V → BTreeMap V → BTreeMap V
  insert k v empty = entry k v empty
  insert k v (entry j u m) =
      if ltb k j
      then entry k v (entry j u m)
      else if k == j
      then entry k v m
      else entry j u (insert k v m)

  unfoldable pub remove : ℕ → BTreeMap V → BTreeMap V
  remove k empty = empty
  remove k (entry j u m) = if j == k then m else entry j u (remove k m)

  -- `range(..k).next_back()`: the last entry whose key is below `k`.
  unfoldable pub last_below : ℕ → BTreeMap V → Option (ℕ × V)
  last_below k empty = none
  last_below k (entry j u m) = if ltb j k then or_else (last_below k m) (some (j, u)) else none

  -- Every key is at least `lo`, and keys increase.
  abbrev pub IsOrdered : ℕ → BTreeMap V → Type 0
  IsOrdered lo empty = Unit
  IsOrdered lo (entry j u m) = (lo ≤ j) × IsOrdered (suc j) m

  pub IsOrdered-weaken : {lo lo' : ℕ} (m : BTreeMap V) → lo' ≤ lo → IsOrdered lo m → IsOrdered lo' m
  IsOrdered-weaken empty h o = tt
  IsOrdered-weaken (entry j u m) h o = (omega arith, o.1)

  pub get_below : (lo k : ℕ) (m : BTreeMap V) → k < lo → IsOrdered lo m → get k m ≡ none
  unfolding get
  get_below lo k empty h o = refl
  get_below lo k (entry j u m) h o = ground (arith, get_below (suc j) k m)

  pub get-insert :
      (k i : ℕ) (v : V) (m : BTreeMap V)
      → get i (insert k v m) ≡ (if k == i then some v else get i m)
  unfolding get insert
  get-insert k i v empty = refl
  get-insert k i v (entry j u m) = ground (arith, get-insert k i v m)

  pub insert_same :
      (lo k : ℕ) (v : V) (m : BTreeMap V) → IsOrdered lo m → get k m ≡ some v → insert k v m ≡ m
  unfolding get insert
  insert_same lo k v empty o h = absurd (ground arith)
  insert_same lo k v (entry j u m) o h =
      ground (arith, insert_same (suc j) k v m, get_below (suc j) k m)

  pub get-remove :
      (lo k i : ℕ) (m : BTreeMap V)
      → IsOrdered lo m
      → get i (remove k m) ≡ (if k == i then none else get i m)
  unfolding get remove
  get-remove lo k i empty o = ground arith
  get-remove lo k i (entry j u m) o =
      ground (arith, get-remove (suc j) k i m, get_below (suc j) i m)

  pub insert-IsOrdered :
      (lo k : ℕ) (v : V) (m : BTreeMap V) → lo ≤ k → IsOrdered lo m → IsOrdered lo (insert k v m)
  unfolding insert
  insert-IsOrdered lo k v empty h o = (h, tt)
  insert-IsOrdered lo k v (entry j u m) h o = ground (arith, insert-IsOrdered (suc j) k v m)

  pub remove-IsOrdered : (lo k : ℕ) (m : BTreeMap V) → IsOrdered lo m → IsOrdered lo (remove k m)
  unfolding remove
  remove-IsOrdered lo k empty o = tt
  remove-IsOrdered lo k (entry j u m) o =
      ground (arith, remove-IsOrdered (suc j) k m, IsOrdered-weaken {lo = suc j} {lo' = lo} m)

  pub insert_front :
      (lo k : ℕ) (v : V) (m : BTreeMap V) → k < lo → IsOrdered lo m → insert k v m ≡ entry k v m
  unfolding insert
  insert_front lo k v empty h o = refl
  insert_front lo k v (entry j u m) h o = ground arith

  pub last_below-none :
      (lo k : ℕ) (m : BTreeMap V) → k ≤ lo → IsOrdered lo m → last_below k m ≡ none
  unfolding last_below
  last_below-none lo k empty h o = refl
  last_below-none lo k (entry j u m) h o = ground arith

pub last_below_bound {ℓ} :
    {V : Type ℓ} (lo k t : ℕ) (u : V) (m : BTreeMap V)
    → IsOrdered lo m
    → last_below k m ≡ some (t, u)
    → (lo ≤ t) × (t < k)
unfolding last_below
last_below_bound lo k t u empty o h = absurd (ground arith)
last_below_bound lo k t u (entry j v m) o h = elim (Option-cases (last_below k m)) [
  | inl e ↦ ground (arith)
  | inr ((t', u'), e) ↦ ground (arith, last_below_bound (suc j) k t' u' m o.1 e)
]
