-- ===== src/RwLock/Exclusion.antt =====
-- Mutual exclusion and progress, for every interleaving from a new lock.
use athera.Prelude.{
  ℕ, zero, suc, ◌+◌, ◌^◌, ◌≤◌, ◌<◌, ◌≡◌, ◌≢◌, inl, inr, refl, ap, some, List, [], ◌∷◌,
  length-replicate, length-set, set, ◌%◌, get_elem?, replicate, ◌==◌, arith, true,
}
use athera.RwLock.{
  Thread, idle, read_start, write_spin, write_entered, new, advance, begin_read, begin_write,
  System, after, Step, Reaches,
}
use athera.RwLock.Invariant.{
  is_reader, is_writer, is_waiting, total, AreSound, Counts, stays, moves, total-set, total-le,
  waiting_one, advance-Counts,
}

-- A new lock and `n` threads that do not use it.
abbrev pub start : ℕ → System
start n = record { lock = new; threads = replicate n idle }

total-idle : (f : Thread → ℕ) (n : ℕ) → f idle ≡ 0 → total f (replicate n idle) ≡ 0
unfolding total
total-idle f zero h = refl
total-idle f (suc n) h = omega (arith, h, total-idle f n h)

idle-AreSound : (n : ℕ) → AreSound (replicate n idle)
unfolding AreSound
idle-AreSound zero = omega arith
idle-AreSound (suc n) = (omega arith, idle-AreSound n)

start-Counts : (n : ℕ) → n < 2 ^ 64 → Counts (start n)
start-Counts n h = record {
  few = omega (arith, h, length-replicate n idle);
  state = omega (arith, total-idle is_writer n refl, total-idle is_reader n refl);
  fits = omega arith;
  exclusive = inl (total-idle is_writer n refl);
  waiting = omega (arith, total-idle is_waiting n refl);
  sound = idle-AreSound n;
}

begin_write-Counts :
    (s : System)
    → Counts s
    → (i : ℕ) → get_elem? s.threads i ≡ some idle
    → Counts (after s i (begin_write s.lock))
unfolding begin_write
begin_write-Counts s c i e =
    let one = total-set is_waiting s.threads i idle write_spin e in
    let few = total-le is_waiting (set s.threads i write_spin) waiting_one in
    let size = length-set s.threads i write_spin in
    let room : (s.lock.waiting_writers + 1) % 2 ^ 64 ≡ s.lock.waiting_writers + 1 =
      omega (arith, c.waiting, one, few, size, c.few) in
    rw room (
      moves s c i idle e (record s.lock { waiting_writers = s.lock.waiting_writers + 1 }) write_spin
        (omega arith) c.fits
        (λ w r a b. (
          omega (arith, c.state, a, b),
          elim c.exclusive [
            | inl z ↦ inl (omega (arith, a, z))
            | inr z ↦ inr (omega (arith, a, z.0), omega (arith, b, z.1))
          ],
        ))
        (omega (arith, c.waiting)))

Step-Counts : (s s' : System) → Counts s → Step s s' → Counts s'
unfolding begin_read
Step-Counts s _ c (Step.starts_read i e) =
    stays s c i idle e read_start (omega arith) refl refl refl
Step-Counts s _ c (Step.starts_write i e) = begin_write-Counts s c i e
Step-Counts s _ c (Step.runs i t e) = advance-Counts s c i t e

Reaches-Counts : (s e : System) → Counts s → Reaches s e → Counts e
Reaches-Counts s _ c Reaches.here = c
Reaches-Counts s _ c (Reaches.then_step m e r h) = Step-Counts m e (Reaches-Counts s m c r) h

total-one :
    (f : Thread → ℕ) (ts : List Thread) (i : ℕ) (t : Thread)
    → get_elem? ts i ≡ some t
    → f t ≤ total f ts
unfolding total
total-one f [] i t e = absurd (ground (arith, e))
total-one f (x ∷ ts) zero t e = let same : x ≡ t = ground (arith, e) in omega (arith, ap f same)
total-one f (x ∷ ts) (suc i) t e = omega (arith, total-one f ts i t e)

total-two :
    (f : Thread → ℕ) (ts : List Thread) (i j : ℕ) (t u : Thread)
    → i ≢ j
    → get_elem? ts i ≡ some t
    → get_elem? ts j ≡ some u
    → f t + f u ≤ total f ts
unfolding total
total-two f [] i j t u ne e q = absurd (ground (arith, e))
total-two f (x ∷ ts) zero zero t u ne e q = absurd (ne refl)
total-two f (x ∷ ts) zero (suc j) t u ne e q =
    let same : x ≡ t = ground (arith, e) in omega (arith, ap f same, total-one f ts j u q)
total-two f (x ∷ ts) (suc i) zero t u ne e q =
    let same : x ≡ u = ground (arith, q) in omega (arith, ap f same, total-one f ts i t e)
total-two f (x ∷ ts) (suc i) (suc j) t u ne e q =
    omega (arith, total-two f ts i j t u (λ h. ne (ap suc h)) e q)

-- However fewer than 2^64 threads interleave their atomic accesses on a new lock: while one thread
-- holds the write guard, no other thread holds a guard of either kind.
pub write-Exclusive :
    (n : ℕ) (s : System) (i j : ℕ) (t u : Thread)
    → n < 2 ^ 64
    → Reaches (start n) s
    → i ≢ j
    → get_elem? s.threads i ≡ some t
    → get_elem? s.threads j ≡ some u
    → is_writer t ≡ 1
    → (is_writer u ≡ 0) × (is_reader u ≡ 0)
write-Exclusive n s i j t u few r ne e q w =
    let c = Reaches-Counts (start n) s (start-Counts n few) r in
    let two = total-two is_writer s.threads i j t u ne e q in
    let readers = total-one is_reader s.threads j u q in
    elim c.exclusive [
      | inl z ↦ absurd (omega (arith, z, two, w))
      | inr z ↦ (omega (arith, z.0, two, w), omega (arith, z.1, readers))
    ]

-- However fewer than 2^64 threads interleave on a new lock: when no thread holds a guard, the next
-- access of a thread that waits in `write` gives it the lock.
pub write-Enters :
    (n : ℕ) (s : System)
    → n < 2 ^ 64
    → Reaches (start n) s
    → total is_writer s.threads ≡ 0
    → total is_reader s.threads ≡ 0
    → (advance s.lock write_spin).1 ≡ write_entered
unfolding advance
write-Enters n s few r w d =
    let c = Reaches-Counts (start n) s (start-Counts n few) r in
    let free : (s.lock.state == 0) ≡ true = ground (arith, c.state, w, d) in rw free refl
