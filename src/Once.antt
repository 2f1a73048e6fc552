-- ===== src/Once.antt =====
-- The cells that are set once: `OnceLock` of src/sync/once.rs and `LazyLock` of src/sync/lazy.rs,
-- one access of memory at a time. A caller is where it stands in `get` or `get_or_init`; its
-- initializer is one access, which changes an environment of its own and may panic.
pub mod Invariant
pub mod Steps
pub mod Agree
pub mod Lazy
mod Tests
use athera.Prelude.Update.{update}
use athera.Prelude.{ℕ, not, ◌==◌, if◌then◌else◌, Bool, true, false, Option, some, none, ◌≡◌}

abbrev pub uninitialized : ℕ
uninitialized = 0

abbrev pub initializing : ℕ
initializing = 1

abbrev pub initialized : ℕ
initialized = 2

-- The value is `none` while it is memory that nothing was written to.
pub record OnceLock {ℓ} (A : Type ℓ) : Type ℓ where
  pub status : ℕ
  pub value : Option A

-- Where a caller stands.
pub data Caller {ℓ} (A : Type ℓ) : Type ℓ where
  idle : Caller A
  get_start : Caller A
  absent : Caller A
  init_start : Caller A
  exchanging : Caller A
  calling : Caller A
  panicked : Caller A
  writing : A → Caller A
  publishing : A → Caller A
  reading : Caller A
  returned : Option A → Caller A

-- A caller that may call again.
abbrev pub is_resting {ℓ} : {A : Type ℓ} → Caller A → Bool
is_resting idle = true
is_resting absent = true
is_resting (returned v) = true
is_resting _ = false

-- An initializer, from its environment: it panics, or leaves an environment and a value.
abbrev pub Initializer {ℓ κ} : Type κ → Type ℓ → Type (ℓ ⊔ κ)
Initializer E A = E → Option (E × A)

-- What the callers share.
pub record Shared {ℓ κ} (E : Type κ) (A : Type ℓ) : Type (ℓ ⊔ κ) where
  pub lock : OnceLock A
  pub environment : E

abbrev pub new {ℓ} : {A : Type ℓ} → OnceLock A
new = record { status = uninitialized; value = none }

module _ {ℓ κ} {E : Type κ} {A : Type ℓ} where
  -- The initializer has answered.
  unfoldable pub finish : Shared E A → Option (E × A) → Shared E A × Caller A
  finish s none = (s, panicked)
  finish s (some r) = (record s { environment = r.0 }, writing (r.1))

  -- The next access of a caller with the initializer `f`.
  unfoldable pub advance : Initializer E A → Shared E A → Caller A → Shared E A × Caller A
  advance f s get_start = if not (s.lock.status == initialized) then (s, absent) else (s, reading)
  advance f s init_start =
      if not (s.lock.status == initialized) then (s, exchanging) else (s, reading)
  advance f s exchanging =
      if s.lock.status == uninitialized
      then (record s { lock = record { status = initializing; value = s.lock.value } }, calling)
      else if s.lock.status == initialized
      then (s, reading)
      else (s, exchanging)
  advance f s calling = finish s (f s.environment)
  advance f s (writing v) =
      (record s { lock = record { status = s.lock.status; value = some v } }, publishing v)
  advance f s (publishing v) =
      (record s { lock = record { status = initialized; value = s.lock.value } }, reading)
  advance f s reading = (s, returned s.lock.value)
  advance f s idle = (s, idle)
  advance f s absent = (s, absent)
  advance f s panicked = (s, panicked)
  advance f s (returned v) = (s, returned v)

-- Any number of callers of one cell.
pub record System {ℓ κ} (E : Type κ) (A : Type ℓ) : Type (ℓ ⊔ κ) where
  pub shared : Shared E A
  pub callers : ℕ → Caller A

module _ {ℓ κ} {E : Type κ} {A : Type ℓ} where
  abbrev pub after : System E A → ℕ → Shared E A × Caller A → System E A
  after s i r = record { shared = r.0; callers = update s.callers i (r.1) }

  -- A new cell that nobody uses, with the environment of its initializers.
  abbrev pub start : E → System E A
  start e = record { shared = record { lock = new; environment = e }; callers = λ j. idle }

module _ {ℓ κ} {E : Type κ} {A : Type ℓ} (f : ℕ → Initializer E A) where
  -- Caller `i` calls, or takes its next access with its own initializer `f i`.
  pub data Step (s : System E A) : System E A → Type (ℓ ⊔ κ) where
    calls_get : (i : ℕ) → is_resting (s.callers i) ≡ true → Step s (after s i (s.shared, get_start))
    calls_init :
        (i : ℕ) → is_resting (s.callers i) ≡ true → Step s (after s i (s.shared, init_start))
    runs : (i : ℕ) → Step s (after s i (advance (f i) s.shared (s.callers i)))

  -- The states that the callers can reach.
  pub data Reaches (s : System E A) : System E A → Type (ℓ ⊔ κ) where
    here : Reaches s s
    then_step : (m e : System E A) → Reaches s m → Step m e → Reaches s e
