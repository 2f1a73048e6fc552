-- ===== src/RwLock/Tests.antt =====
-- The theorems about the lock with two threads, one of which writes.
use athera.Prelude.{◌≡◌, refl, [], ◌∷◌, arith}
use athera.RwLock.{
  idle, write_spin, write_entered, new, advance, begin_write, System, Step, Reaches,
}
use athera.RwLock.Invariant.{is_reader, is_writer, total}
use athera.RwLock.Exclusion.{start, write-Exclusive, write-Enters}

-- The first thread has called `write` and taken the lock.
abbrev entered : System
entered = record {
  lock = record { state = 1; waiting_writers = 1 };
  threads = write_entered ∷ idle ∷ [];
}

-- The first thread waits.
abbrev waiting : System
waiting = record {
  lock = record { state = 0; waiting_writers = 1 };
  threads = write_spin ∷ idle ∷ [];
}

entered-Reaches : Reaches (start 2) entered
unfolding begin_write advance
entered-Reaches =
    Reaches.then_step waiting entered
      (Reaches.then_step (start 2) waiting Reaches.here (Step.starts_write 0 refl))
      (Step.runs 0 write_spin refl)

write-Exclusive_example : (is_writer idle ≡ 0) × (is_reader idle ≡ 0)
write-Exclusive_example =
    write-Exclusive 2 entered 0 1 write_entered idle (omega arith) entered-Reaches (omega arith)
      refl refl refl

write-Enters_example : (advance new write_spin).1 ≡ write_entered
write-Enters_example =
    write-Enters 2 (start 2) (omega arith) Reaches.here (unfold total in refl)
      (unfold total in refl)
