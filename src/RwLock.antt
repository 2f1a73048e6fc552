-- ===== src/RwLock.antt =====
-- The read-write spin lock of src/sync/rwlock.rs, one atomic access at a time. A thread is where it
-- stands in `read`, `write` or the `drop` of a guard. The interrupt flag and the value inside are
-- left out: the first is local to a hart, and the second is touched under a guard only.
pub mod Invariant
pub mod Exclusion
mod Tests
use Prim.Native.Nat.{bit_and}
use athera.Prelude.{
  ℕ, ◌+◌, ◌-◌, ◌%◌, ◌^◌, ◌≡◌, ◌≢◌, some, Bool, not, List, get_elem?, set, leb, ◌==◌, if◌then◌else◌,
}

abbrev pub writer_bit : ℕ
writer_bit = 1

abbrev pub reader_unit : ℕ
reader_unit = 2

-- The two atomic words of the lock.
pub record Lock : Type 0 where
  pub state : ℕ
  pub waiting_writers : ℕ

-- Where a thread stands.
pub data Thread : Type 0 where
  idle : Thread
  read_start : Thread
  read_load : Thread
  read_exchange : ℕ → Thread
  reading : Thread
  write_spin : Thread
  write_entered : Thread
  writing : Thread

-- `fetch_sub` on a word of 64 bits.
abbrev pub wrapping_sub : ℕ → ℕ → ℕ
wrapping_sub a b = (a + 2 ^ 64 - b) % 2 ^ 64

-- `new`.
abbrev pub new : Lock
new = record { state = 0; waiting_writers = 0 }

-- The next atomic access of a thread: of `read` from the loop on, of `write` from the loop on, or of
-- the drop of the guard that it holds.
unfoldable pub advance : Lock → Thread → Lock × Thread
advance l idle = (l, idle)
advance l read_start = if not (l.waiting_writers == 0) then (l, read_start) else (l, read_load)
advance l read_load =
    if not (bit_and l.state writer_bit == 0)
    then (l, read_start)
    else if leb (2 ^ 64) (l.state + reader_unit)
    then (l, read_start)
    else (l, read_exchange l.state)
advance l (read_exchange state) =
    if l.state == state
    then (record l { state = state + reader_unit }, reading)
    else (l, read_start)
advance l reading = (record l { state = wrapping_sub l.state reader_unit }, idle)
advance l write_spin =
    if l.state == 0 then (record l { state = writer_bit }, write_entered) else (l, write_spin)
advance l write_entered = (record l { waiting_writers = wrapping_sub l.waiting_writers 1 }, writing)
advance l writing = (record l { state = 0 }, idle)

-- The call of `read`, and the call of `write` with its `fetch_add`.
unfoldable pub begin_read : Lock → Lock × Thread
begin_read l = (l, read_start)

unfoldable pub begin_write : Lock → Lock × Thread
begin_write l = (record l { waiting_writers = (l.waiting_writers + 1) % 2 ^ 64 }, write_spin)

pub record System : Type 0 where
  pub lock : Lock
  pub threads : List Thread

abbrev pub after : System → ℕ → Lock × Thread → System
after s i (l, t) = record { lock = l; threads = set s.threads i t }

-- Any thread takes its next step.
pub data Step (s : System) : System → Type 0 where
  starts_read : (i : ℕ) → get_elem? s.threads i ≡ some idle → Step s (after s i (begin_read s.lock))
  starts_write :
      (i : ℕ) → get_elem? s.threads i ≡ some idle → Step s (after s i (begin_write s.lock))
  runs :
      (i : ℕ) (t : Thread) → get_elem? s.threads i ≡ some t → Step s (after s i (advance s.lock t))

-- The states that the threads can reach.
pub data Reaches (s : System) : System → Type 0 where
  here : Reaches s s
  then_step : (m e : System) → Reaches s m → Step m e → Reaches s e
