-- ===== src/RwLock/Invariant.antt =====
-- The words of the lock count its holders and its waiting writers, in every interleaving.
use Prim.Native.Nat.{bit_and}
use athera.Prelude.{
  ℕ, zero, suc, ◌+◌, ◌-◌, ◌*◌, ◌%◌, ◌^◌, ◌≤◌, ◌<◌, ◌≡◌, ◌⊎◌, inl, inr, refl, ap, subst, some, true,
  List, [], ◌∷◌, length, length-set, get_elem?, set, leb, ◌==◌, arith, Bool-cases,
}
use athera.Prelude.Bits.{bit_and_mask}
use athera.RwLock.{
  Lock, Thread, idle, read_start, read_load, read_exchange, reading, write_spin, write_entered,
  writing, advance, System, after,
}

abbrev pub is_reader : Thread → ℕ
is_reader reading = 1
is_reader _ = 0

abbrev pub is_writer : Thread → ℕ
is_writer write_entered = 1
is_writer writing = 1
is_writer _ = 0

abbrev pub is_waiting : Thread → ℕ
is_waiting write_spin = 1
is_waiting write_entered = 1
is_waiting _ = 0

unfoldable pub total : (Thread → ℕ) → List Thread → ℕ
total f [] = 0
total f (t ∷ ts) = f t + total f ts

-- A thread about to exchange the state saw it without the writer's bit and with room for a reader.
abbrev IsSound : Thread → Type 0
IsSound (read_exchange n) = (n % 2 ≡ 0) × (n + 2 < 2 ^ 64)
IsSound _ = 0 ≤ 0

unfoldable pub AreSound : List Thread → Type 0
AreSound [] = 0 ≤ 0
AreSound (t ∷ ts) = IsSound t × AreSound ts

pub total-set :
    (f : Thread → ℕ) (ts : List Thread) (i : ℕ) (t u : Thread)
    → get_elem? ts i ≡ some t
    → total f (set ts i u) + f t ≡ total f ts + f u
unfolding total
total-set f [] i t u e = absurd (ground (arith, e))
total-set f (x ∷ ts) zero t u e = let same : x ≡ t = ground (arith, e) in omega (arith, ap f same)
total-set f (x ∷ ts) (suc i) t u e = omega (arith, total-set f ts i t u e)

AreSound-set :
    (ts : List Thread) (i : ℕ) (u : Thread) → AreSound ts → IsSound u → AreSound (set ts i u)
unfolding AreSound
AreSound-set [] i u a h = a
AreSound-set (t ∷ ts) zero u a h = (h, a.1)
AreSound-set (t ∷ ts) (suc i) u a h = (a.0, AreSound-set ts i u a.1 h)

AreSound-get :
    (ts : List Thread) (i : ℕ) (t : Thread) → AreSound ts → get_elem? ts i ≡ some t → IsSound t
unfolding AreSound
AreSound-get [] i t a e = absurd (ground (arith, e))
AreSound-get (x ∷ ts) zero t a e =
    let same : x ≡ t = ground (arith, e) in subst (λ t. IsSound t) same a.0
AreSound-get (x ∷ ts) (suc i) t a e = AreSound-get ts i t a.1 e

pub total-le :
    (f : Thread → ℕ) (ts : List Thread) → ((t : Thread) → f t ≤ 1) → total f ts ≤ length ts
unfolding total
total-le f [] h = omega arith
total-le f (t ∷ ts) h = omega (arith, h t, total-le f ts h)

pub record Counts (s : System) : Type 0 where
  pub few : length s.threads < 2 ^ 64
  pub state : s.lock.state ≡ total is_writer s.threads + 2 * total is_reader s.threads
  pub fits : s.lock.state < 2 ^ 64
  pub exclusive :
      (total is_writer s.threads ≡ 0)
      ⊎ ((total is_writer s.threads ≡ 1) × (total is_reader s.threads ≡ 0))
  pub waiting : s.lock.waiting_writers ≡ total is_waiting s.threads
  pub sound : AreSound s.threads

-- What a step of thread `i` from `t` to `u` does to the totals.
module _ (s : System) (c : Counts s) (i : ℕ) (t : Thread) (e : get_elem? s.threads i ≡ some t) where
  pub moves :
      (l : Lock) (u : Thread)
      → IsSound u
      → l.state < 2 ^ 64
      → ((w r : ℕ)
          → w + is_writer t ≡ total is_writer s.threads + is_writer u
          → r + is_reader t ≡ total is_reader s.threads + is_reader u
          → (l.state ≡ w + 2 * r) × ((w ≡ 0) ⊎ ((w ≡ 1) × (r ≡ 0))))
      → l.waiting_writers + is_waiting t ≡ total is_waiting s.threads + is_waiting u
      → Counts (after s i (l, u))
  moves l u ok small h w =
      let n =
        h (total is_writer (set s.threads i u)) (total is_reader (set s.threads i u))
          (total-set is_writer s.threads i t u e) (total-set is_reader s.threads i t u e) in
      record {
        few = omega (arith, length-set s.threads i u, c.few);
        state = n.0;
        fits = small;
        exclusive = n.1;
        waiting = omega (arith, w, total-set is_waiting s.threads i t u e);
        sound = AreSound-set s.threads i u c.sound ok;
      }

  -- A step that leaves the lock alone, between places that hold nothing.
  pub stays :
      (u : Thread)
      → IsSound u
      → is_writer u ≡ is_writer t
      → is_reader u ≡ is_reader t
      → is_waiting u ≡ is_waiting t
      → Counts (after s i (s.lock, u))
  stays u ok w r q =
      moves s.lock u ok c.fits
        (λ x y a b. (
          omega (arith, c.state, a, b, w, r),
          elim c.exclusive [
            | inl z ↦ inl (omega (arith, a, w, z))
            | inr z ↦ inr (omega (arith, a, w, z.0), omega (arith, b, r, z.1))
          ],
        ))
        (omega (arith, c.waiting, q))

sub_small : (a b : ℕ) → b ≤ a → a < 2 ^ 64 → (a + 2 ^ 64 - b) % 2 ^ 64 ≡ a - b
sub_small a b h l = omega arith

pub waiting_one : (t : Thread) → is_waiting t ≤ 1
waiting_one idle = omega arith
waiting_one read_start = omega arith
waiting_one read_load = omega arith
waiting_one (read_exchange n) = omega arith
waiting_one reading = omega arith
waiting_one write_spin = omega arith
waiting_one write_entered = omega arith
waiting_one writing = omega arith

even_state : (n : ℕ) → (bit_and n 1 == 0) ≡ true → n % 2 ≡ 0
even_state n h = ground (arith, bit_and_mask 1 n)

pub advance-Counts :
    (s : System)
    → Counts s
    → (i : ℕ) (t : Thread) → get_elem? s.threads i ≡ some t
    → Counts (after s i (advance s.lock t))
unfolding advance
advance-Counts s c i idle e = stays s c i idle e idle (omega arith) refl refl refl
advance-Counts s c i read_start e = elim (Bool-cases (s.lock.waiting_writers == 0)) [
  | inl h ↦ rw h (stays s c i read_start e read_load (omega arith) refl refl refl)
  | inr h ↦ rw h (stays s c i read_start e read_start (omega arith) refl refl refl)
]
advance-Counts s c i read_load e = elim (Bool-cases (bit_and s.lock.state 1 == 0)) [
  | inr h ↦ rw h (stays s c i read_load e read_start (omega arith) refl refl refl)
  | inl h ↦ elim (Bool-cases (leb (2 ^ 64) (s.lock.state + 2))) [
    | inl full ↦ rw (h, full) (stays s c i read_load e read_start (omega arith) refl refl refl)
    | inr room ↦
        rw (h, room)
          (stays s c i read_load e (read_exchange s.lock.state)
            (even_state s.lock.state h, ground arith) refl refl refl)
  ]
]
advance-Counts s c i (read_exchange n) e = elim (Bool-cases (s.lock.state == n)) [
  | inr h ↦ rw h (stays s c i (read_exchange n) e read_start (omega arith) refl refl refl)
  | inl h ↦
      let ok = AreSound-get s.threads i (read_exchange n) c.sound e in
      let same : s.lock.state ≡ n = ground arith in
      rw h (
        moves s c i (read_exchange n) e (record s.lock { state = n + 2 }) reading (omega arith)
          (omega (arith, ok.1))
          (λ w r a b. elim c.exclusive [
            | inl z ↦ (omega (arith, c.state, a, b, z, same), inl (omega (arith, a, z)))
            | inr z ↦ absurd (omega (arith, c.state, z.0, z.1, same, ok.0))
          ])
          (omega (arith, c.waiting)))
]
advance-Counts s c i reading e =
    let one = total-set is_reader s.threads i reading idle e in
    let less : (s.lock.state + 2 ^ 64 - 2) % 2 ^ 64 ≡ s.lock.state - 2 =
      sub_small s.lock.state 2 (omega (arith, c.state, one)) c.fits in
    rw less (
      moves s c i reading e (record s.lock { state = s.lock.state - 2 }) idle (omega arith)
        (omega (arith, c.fits))
        (λ w r a b. elim c.exclusive [
          | inl z ↦ (omega (arith, c.state, a, b, z), inl (omega (arith, a, z)))
          | inr z ↦ absurd (omega (arith, b, z.1))
        ])
        (omega (arith, c.waiting)))
advance-Counts s c i write_spin e = elim (Bool-cases (s.lock.state == 0)) [
  | inr h ↦ rw h (stays s c i write_spin e write_spin (omega arith) refl refl refl)
  | inl h ↦
      let free : s.lock.state ≡ 0 = ground arith in
      rw h (
        moves s c i write_spin e (record s.lock { state = 1 }) write_entered (omega arith)
          (omega arith)
          (λ w r a b. (
            omega (arith, c.state, a, b, free),
            inr (omega (arith, c.state, a, free), omega (arith, c.state, b, free)),
          ))
          (omega (arith, c.waiting)))
]
advance-Counts s c i write_entered e =
    let one = total-set is_waiting s.threads i write_entered writing e in
    let few = total-le is_waiting s.threads waiting_one in
    let less : (s.lock.waiting_writers + 2 ^ 64 - 1) % 2 ^ 64 ≡ s.lock.waiting_writers - 1 =
      sub_small s.lock.waiting_writers 1 (omega (arith, c.waiting, one))
        (omega (arith, c.waiting, few, c.few)) in
    rw less (
      moves s c i write_entered e (record s.lock { waiting_writers = s.lock.waiting_writers - 1 })
        writing (omega arith) c.fits
        (λ w r a b. (
          omega (arith, c.state, a, b),
          elim c.exclusive [
            | inl z ↦ inl (omega (arith, a, z))
            | inr z ↦ inr (omega (arith, a, z.0), omega (arith, b, z.1))
          ],
        ))
        (omega (arith, c.waiting, one)))
advance-Counts s c i writing e =
    moves s c i writing e (record s.lock { state = 0 }) idle (omega arith) (omega arith)
      (λ w r a b. elim c.exclusive [
        | inl z ↦ absurd (omega (arith, a, z))
        | inr z ↦ (omega (arith, a, b, z.0, z.1), inl (omega (arith, a, z.0)))
      ])
      (omega (arith, c.waiting))
