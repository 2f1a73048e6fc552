-- ===== src/IdAlloc/Ranges/Spec.antt =====
-- What a table of intervals means, and when it is well formed: increasing, apart, and merged.
use athera.Prelude.{
  ℕ, suc, ◌+◌, ◌≤◌, ◌<◌, ◌≡◌, refl, Bool, false, ◌&&◌, ◌||◌, ltb, leb, arith, ◌⊎◌, inl, inr,
  Bool-cases,
}
use athera.Prelude.Count.{count, count_interval, count_disjoint, count_none}
use athera.Prelude.BTreeMap.{empty, entry, IsOrdered}
use athera.IdAlloc.Ranges.{Ranges, available, scan}

-- Whether some interval holds `i`.
unfoldable pub is_free : ℕ → Ranges → Bool
is_free i empty = false
is_free i (entry s e m) = (leb s i && ltb i e) || is_free i m

-- No interval is empty, and between two intervals lies at least one number.
abbrev pub IsRanges : ℕ → ℕ → Ranges → Type 0
IsRanges lo hi empty = Unit
IsRanges lo hi (entry s e m) = (lo ≤ s) × (s < e) × (e ≤ hi) × IsRanges (e + 1) hi m

pub IsRanges-weaken : (lo lo' hi : ℕ) (m : Ranges) → lo' ≤ lo → IsRanges lo hi m → IsRanges lo' hi m
IsRanges-weaken lo lo' hi empty h r = tt
IsRanges-weaken lo lo' hi (entry s e m) h r = (omega arith, r.1, r.2, r.3)

pub IsRanges-IsOrdered : (lo hi : ℕ) (m : Ranges) → IsRanges lo hi m → IsOrdered lo m
IsRanges-IsOrdered lo hi empty r = tt
IsRanges-IsOrdered lo hi (entry s e m) r =
    (r.0, IsRanges-IsOrdered (suc s) hi m (IsRanges-weaken (e + 1) (suc s) hi m (omega arith) r.3))

pub is_free_below : (lo hi i : ℕ) (m : Ranges) → IsRanges lo hi m → i < lo → is_free i m ≡ false
unfolding is_free
is_free_below lo hi i empty r h = refl
is_free_below lo hi i (entry s e m) r h = ground (arith, is_free_below (e + 1) hi i m r.3)

is_free_above : (lo hi i : ℕ) (m : Ranges) → IsRanges lo hi m → hi ≤ i → is_free i m ≡ false
unfolding is_free
is_free_above lo hi i empty r h = refl
is_free_above lo hi i (entry s e m) r h = ground (arith, is_free_above (e + 1) hi i m r.3)

-- The loop's early `break` loses nothing.
pub scan-eq-is_free : (lo hi i : ℕ) (m : Ranges) → IsRanges lo hi m → scan i m ≡ is_free i m
unfolding scan is_free
scan-eq-is_free lo hi i empty r = refl
scan-eq-is_free lo hi i (entry s e m) r =
    ground (arith, scan-eq-is_free (e + 1) hi i m r.3, is_free_below (e + 1) hi i m r.3)

-- On a well-formed table below `hi`, the sum of the lengths is the count of the free numbers below
-- `hi`.
available-eq-count :
    (lo hi : ℕ) (m : Ranges) → IsRanges lo hi m → available m ≡ count (λ i. is_free i m) hi
unfolding available is_free
available-eq-count lo hi empty r = omega (arith, count_none (λ i. false) hi (λ i l. refl))
available-eq-count lo hi (entry s e m) r = omega (
  arith,
  count_disjoint (λ i. leb s i && ltb i e) (λ i. is_free i m) hi
      (λ i l. ground (arith, is_free_below (e + 1) hi i m r.3)),
  count_interval s e hi (omega arith),
  available-eq-count (e + 1) hi m r.3,
)

-- `[a, b)` meets no interval.
abbrev pub IsClear : ℕ → ℕ → Ranges → Type 0
IsClear a b empty = Unit
IsClear a b (entry s e m) = ((e ≤ a) ⊎ (b ≤ s)) × IsClear a b m

pub IsClear_lem :
    (lo hi a b : ℕ) (m : Ranges)
    → IsRanges lo hi m
    → a < b
    → ((i : ℕ) → a ≤ i → i < b → is_free i m ≡ false)
    → IsClear a b m
unfolding is_free
IsClear_lem lo hi a b empty r h f = tt
IsClear_lem lo hi a b (entry s e m) r h f =
    (here, IsClear_lem (e + 1) hi a b m r.3 h (λ i p q. ground (arith, f i p q)))
  where
    here : (e ≤ a) ⊎ (b ≤ s)
    here = elim (Bool-cases (leb e a)) [
      | inl p ↦ inl (ground arith)
      | inr p ↦ elim (Bool-cases (leb b s)) [
        | inl q ↦ inr (ground arith)
        | inr q ↦ elim (Bool-cases (leb s a)) [
          | inl t ↦ absurd (ground (arith, f a (omega arith) h))
          | inr t ↦ absurd (ground (arith, f s))
        ]
      ]
    ]

pub IsClear-widen :
    (lo hi s e a b : ℕ) (m : Ranges)
    → IsRanges lo hi m
    → e < lo
    → e ≡ a
    → s < e
    → IsClear a b m
    → IsClear s b m
IsClear-widen lo hi s e a b empty r h q k c = tt
IsClear-widen lo hi s e a b (entry s' e' m) r h q k c =
    (inr (ground arith), IsClear-widen (e' + 1) hi s e a b m r.3 (omega arith) q k c.1)
