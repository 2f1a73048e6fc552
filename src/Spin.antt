-- ===== src/Spin.antt =====
-- The spin lock of src/sync/spin.rs that keeps interrupts off, one access at a time, taken by any
-- number of harts. A hart is its bit `sstatus.SIE` and where it stands in `lock` or in the `drop` of
-- the guard; the value inside is touched under a guard only and is left out.
pub mod Found
pub mod Exclusion
mod Tests
use athera.Prelude.{ℕ, Bool, true, false, ◌≡◌, if◌then◌else◌}
use athera.Prelude.Update.{update}

-- Where a hart stands; `sie` is what `disable_interrupt` answered.
pub data Place : Type 0 where
  idle : Place
  spinning : Bool → Place
  holding : Bool → Place
  releasing : Bool → Place

pub record Hart : Type 0 where
  pub sie : Bool
  pub place : Place

-- `disable_interrupt` and `enable_interrupt` of src/arch/riscv64.rs: the bit and the answer.
unfoldable pub disable_interrupt : Bool → Bool × Bool
disable_interrupt sie = (false, sie)

unfoldable pub enable_interrupt : Bool → Bool → Bool
enable_interrupt prev_sie sie = if prev_sie then true else sie

-- The next access of a hart: `lock` begins, the exchange, and the two accesses of `drop`.
unfoldable pub advance : Bool → Bool → Place → Bool × Hart
advance lock sie idle =
    let r = disable_interrupt sie in (lock, record { sie = r.0; place = spinning (r.1) })
advance lock sie (spinning saved) =
    if lock
    then (lock, record { sie = sie; place = spinning saved })
    else (true, record { sie = sie; place = holding saved })
advance lock sie (holding saved) = (false, record { sie = sie; place = releasing saved })
advance lock sie (releasing saved) =
    (lock, record { sie = enable_interrupt saved sie; place = idle })

-- `AtomicBool` and the harts that share it.
pub record System : Type 0 where
  pub lock : Bool
  pub harts : ℕ → Hart

abbrev pub after : System → ℕ → Bool × Hart → System
after s i r = record { lock = r.0; harts = update s.harts i (r.1) }

-- Hart `i` takes its next access, or sets its bit while it does not use the lock.
pub data Step (s : System) : System → Type 0 where
  runs : (i : ℕ) → Step s (after s i (advance s.lock (s.harts i).sie (s.harts i).place))
  sets :
      (i : ℕ) (sie : Bool)
      → (s.harts i).place ≡ idle
      → Step s (after s i (s.lock, record { sie = sie; place = idle }))

pub data Reaches (s : System) : System → Type 0 where
  here : Reaches s s
  then_step : (m e : System) → Reaches s m → Step m e → Reaches s e

-- `new`, and harts that do not use the lock, each with its bit.
abbrev pub start : (ℕ → Bool) → System
start sies = record { lock = false; harts = λ j. record { sie = sies j; place = idle } }
