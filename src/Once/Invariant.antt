-- ===== src/Once/Invariant.antt =====
-- The invariant of a cell of src/sync/once.rs: nobody has it, one caller runs its initializer, or the
-- value is there.
use athera.Prelude.{
  ℕ, ◌≡◌, ◌≢◌, refl, Bool, true, false, some, none, ◌==◌, ==_iff, arith, Bool-cases, inl, inr,
}
use athera.Once.{
  Caller, idle, get_start, absent, init_start, exchanging, calling, panicked, writing, publishing,
  reading, returned, Initializer, Shared, advance, System,
}

-- A caller that has the cell for itself.
unfoldable pub is_owner {ℓ} : {A : Type ℓ} → Caller A → Bool
is_owner calling = true
is_owner panicked = true
is_owner (writing v) = true
is_owner (publishing v) = true
is_owner _ = false

-- A caller that neither initializes nor reads.
unfoldable pub is_outside {ℓ} : {A : Type ℓ} → Caller A → Bool
is_outside idle = true
is_outside get_start = true
is_outside absent = true
is_outside init_start = true
is_outside exchanging = true
is_outside _ = false

module _ {ℓ} {A : Type ℓ} where
  -- What a caller may be once the value `v` is there.
  pub data IsServed (v : A) (c : Caller A) : Type ℓ where
    outside : is_outside c ≡ true → IsServed v c
    reads : c ≡ reading → IsServed v c
    answered : c ≡ returned (some v) → IsServed v c

module _ {ℓ κ} {E : Type κ} {A : Type ℓ} where
  -- The value `v` is there for good, and the environment is `e`.
  pub record Done (v : A) (e : E) (s : System E A) : Type (ℓ ⊔ κ) where
    pub status : s.shared.lock.status ≡ 2
    pub value : s.shared.lock.value ≡ some v
    pub environment : s.shared.environment ≡ e
    pub served : (j : ℕ) → IsServed v (s.callers j)

-- The one caller that runs its initializer `g` from the environment `e₀`.
pub data Owns {ℓ κ} {E : Type κ} {A : Type ℓ} (g : Initializer E A) (first : E) (s : Shared E A)
    (c : Caller A) : Type (ℓ ⊔ κ) where
  calls : c ≡ calling → s.environment ≡ first → Owns g first s c
  fails : c ≡ panicked → g first ≡ none → Owns g first s c
  writes :
      (v : A) (e : E) → c ≡ writing v → g first ≡ some (e, v) → s.environment ≡ e → Owns g first s c
  publishes :
      (v : A) (e : E)
      → c ≡ publishing v
      → g first ≡ some (e, v)
      → s.environment ≡ e
      → s.lock.value ≡ some v
      → Owns g first s c

module _ {ℓ κ} {E : Type κ} {A : Type ℓ} (f : ℕ → Initializer E A) (first : E) where
  pub data Holds (s : System E A) : Type (ℓ ⊔ κ) where
    fresh :
        s.shared.lock.status ≡ 0
        → s.shared.environment ≡ first
        → ((j : ℕ) → is_outside (s.callers j) ≡ true)
        → Holds s
    busy :
        (k : ℕ)
        → s.shared.lock.status ≡ 1
        → Owns (f k) first s.shared (s.callers k)
        → ((j : ℕ) → k ≢ j → is_outside (s.callers j) ≡ true)
        → Holds s
    done : (k : ℕ) (v : A) (e : E) → f k first ≡ some (e, v) → Done v e s → Holds s

module _ {ℓ κ} {E : Type κ} {A : Type ℓ} where
  -- An access of a caller outside: it stays outside, or it takes a cell that is not initialized.
  pub data Outside (s : Shared E A) (r : Shared E A × Caller A) : Type (ℓ ⊔ κ) where
    stays : r.0 ≡ s → is_outside (r.1) ≡ true → Outside s r
    takes :
        s.lock.status ≡ 0
        → r.0 ≡ record s { lock = record { status = 1; value = s.lock.value } }
        → r.1 ≡ calling
        → Outside s r
    serves : s.lock.status ≡ 2 → r.0 ≡ s → r.1 ≡ reading → Outside s r

  pub advance-Outside :
      (g : Initializer E A) (s : Shared E A) (c : Caller A)
      → is_outside c ≡ true
      → Outside s (advance g s c)
  unfolding advance is_outside
  advance-Outside g s idle o = stays refl refl
  advance-Outside g s get_start o = elim (Bool-cases (s.lock.status == 2)) [
    | inl h ↦ rw h (serves ((==_iff s.lock.status 2).0 h) refl refl)
    | inr h ↦ rw h (stays refl refl)
  ]
  advance-Outside g s absent o = stays refl refl
  advance-Outside g s init_start o = elim (Bool-cases (s.lock.status == 2)) [
    | inl h ↦ rw h (serves ((==_iff s.lock.status 2).0 h) refl refl)
    | inr h ↦ rw h (stays refl refl)
  ]
  advance-Outside g s exchanging o = elim (Bool-cases (s.lock.status == 0)) [
    | inl h ↦ rw h (takes ((==_iff s.lock.status 0).0 h) refl refl)
    | inr h ↦ elim (Bool-cases (s.lock.status == 2)) [
      | inl q ↦ rw (h, q) (serves ((==_iff s.lock.status 2).0 q) refl refl)
      | inr q ↦ rw (h, q) (stays refl refl)
    ]
  ]
  advance-Outside g s calling o = absurd (ground (arith, o))
  advance-Outside g s panicked o = absurd (ground (arith, o))
  advance-Outside g s (writing v) o = absurd (ground (arith, o))
  advance-Outside g s (publishing v) o = absurd (ground (arith, o))
  advance-Outside g s reading o = absurd (ground (arith, o))
  advance-Outside g s (returned v) o = absurd (ground (arith, o))
