-- ===== src/Once/Steps.antt =====
-- The invariant of a cell of src/sync/once.rs under each access and each call.
use athera.Prelude.{
  ℕ, ◌≡◌, ◌≢◌, refl, sym, ap, subst, ◌∙◌, true, false, Option, some, none, arith, ℕ_discrete,
}
use athera.Prelude.Update.{update-all, update_self, update-ne}
use athera.Once.{
  OnceLock, Caller, idle, get_start, absent, init_start, exchanging, calling, panicked, writing,
  publishing, reading, returned, is_resting, Initializer, Shared, finish, advance, System, after,
  Step, Reaches, start,
}
use athera.Once.Invariant.{
  is_owner, is_outside, IsServed, outside, reads, answered, Done, Owns, calls, fails, writes,
  publishes, Holds, fresh, busy, done, stays, takes, serves, advance-Outside,
}

module _ {ℓ} {A : Type ℓ} where
  resting-no-owner : (c : Caller A) → is_resting c ≡ true → is_owner c ≡ false
  unfolding is_owner
  resting-no-owner idle r = refl
  resting-no-owner absent r = refl
  resting-no-owner (returned v) r = refl
  resting-no-owner get_start r = refl
  resting-no-owner init_start r = refl
  resting-no-owner exchanging r = refl
  resting-no-owner reading r = refl
  resting-no-owner calling r = absurd (ground (arith, r))
  resting-no-owner panicked r = absurd (ground (arith, r))
  resting-no-owner (writing v) r = absurd (ground (arith, r))
  resting-no-owner (publishing v) r = absurd (ground (arith, r))

  outside-no-owner : (c : Caller A) → is_outside c ≡ true → is_owner c ≡ false
  unfolding is_owner is_outside
  outside-no-owner idle r = refl
  outside-no-owner absent r = refl
  outside-no-owner (returned v) r = refl
  outside-no-owner get_start r = refl
  outside-no-owner init_start r = refl
  outside-no-owner exchanging r = refl
  outside-no-owner reading r = refl
  outside-no-owner calling r = absurd (ground (arith, r))
  outside-no-owner panicked r = absurd (ground (arith, r))
  outside-no-owner (writing v) r = absurd (ground (arith, r))
  outside-no-owner (publishing v) r = absurd (ground (arith, r))

module _ {ℓ κ} {E : Type κ} {A : Type ℓ} where
  pub Owns-is_owner :
      (g : Initializer E A) (first : E) (s : Shared E A) (c : Caller A)
      → Owns g first s c
      → is_owner c ≡ true
  unfolding is_owner
  Owns-is_owner g first s c (calls e _) = ap is_owner e
  Owns-is_owner g first s c (fails e _) = ap is_owner e
  Owns-is_owner g first s c (writes v _ e _ _) = ap is_owner e
  Owns-is_owner g first s c (publishes v _ e _ _ _) = ap is_owner e

  -- An access that changes nothing shared.
  still {μ} :
      (P : System E A → Type μ) (s : System E A) (i : ℕ) (r : Shared E A × Caller A)
      → r.0 ≡ s.shared
      → P (after s i (s.shared, r.1))
      → P (after s i r)
  still P s i r e p = subst P (ap (λ x. after s i (x, r.1)) (sym e)) p

  served-Done :
      (v : A) (e : E) (s : System E A) (i : ℕ) (c : Caller A)
      → Done v e s
      → IsServed v c
      → Done v e (after s i (s.shared, c))
  served-Done v e s i c d p = record {
    status = d.status;
    value = d.value;
    environment = d.environment;
    served = update-all (λ j x. IsServed v x) s.callers i c p (λ j _. d.served j);
  }

  -- Once the value is there it stays.
  advance-Done :
      (g : Initializer E A) (v : A) (e : E) (s : System E A) (i : ℕ)
      → Done v e s
      → Done v e (after s i (advance g s.shared (s.callers i)))
  unfolding advance
  advance-Done g v e s i d =
      let r = advance g s.shared (s.callers i) in
      elim (d.served i) [
        | outside p ↦ elim (advance-Outside g s.shared (s.callers i) p) [
          | stays q o ↦ still (Done v e) s i r q (served-Done v e s i (r.1) d (outside o))
          | takes q _ _ ↦ absurd (omega (arith, q, d.status))
          | serves _ q o ↦ still (Done v e) s i r q (served-Done v e s i (r.1) d (reads o))
        ]
        | reads p ↦
            rw p (
              served-Done v e s i (returned s.shared.lock.value) d (answered (ap returned d.value)))
        | answered p ↦ rw p (served-Done v e s i (returned (some v)) d (answered refl))
      ]

module _ {ℓ κ} {E : Type κ} {A : Type ℓ} (f : ℕ → Initializer E A) (first : E) where
  -- Caller `i` turns to `c`, outside, and nothing shared changes.
  settle :
      (s : System E A) (i : ℕ) (c : Caller A)
      → Holds f first s
      → is_owner (s.callers i) ≡ false
      → is_outside c ≡ true
      → Holds f first (after s i (s.shared, c))
  settle s i c (fresh a b o) n p =
      fresh a b (update-all (λ j x. is_outside x ≡ true) s.callers i c p (λ j _. o j))
  settle s i c (busy k a w o) n p =
      let other : i ≢ k = λ e.
        let owns = Owns-is_owner (f k) first s.shared (s.callers k) w in
        let no = subst (λ j. is_owner (s.callers j) ≡ false) e n in ground (arith, owns, no) in
      busy k a (subst (λ x. Owns (f k) first s.shared x) (sym (update-ne s.callers i c k other)) w)
        (update-all (λ j x. k ≢ j → is_outside x ≡ true) s.callers i c (λ _. p) (λ j _. o j))
  settle s i c (done k v e q d) n p = done k v e q (served-Done v e s i c d (outside p))

  -- The owner, caller `i`, moves on to `c` and stays the owner.
  own :
      (s : System E A) (i : ℕ) (r : Shared E A × Caller A)
      → r.0.lock.status ≡ 1
      → Owns (f i) first (r.0) (r.1)
      → ((j : ℕ) → i ≢ j → is_outside (s.callers j) ≡ true)
      → Holds f first (after s i r)
  own s i r a w o =
      busy i a (subst (λ x. Owns (f i) first (r.0) x) (sym (update_self s.callers i (r.1))) w)
        (λ j n. subst (λ x. is_outside x ≡ true) (sym (update-ne s.callers i (r.1) j n)) (o j n))

  answer-Holds :
      (s : System E A) (i : ℕ) (a : Option (E × A))
      → f i first ≡ a
      → s.shared.lock.status ≡ 1
      → ((j : ℕ) → i ≢ j → is_outside (s.callers j) ≡ true)
      → Holds f first (after s i (finish s.shared a))
  unfolding finish
  answer-Holds s i none e a o = own s i (s.shared, panicked) a (fails refl e) o
  answer-Holds s i (some x) e a o =
      own s i (record s.shared { environment = x.0 }, writing (x.1)) a
        (writes (x.1) (x.0) refl e refl) o

  owner-Holds :
      (s : System E A) (i : ℕ)
      → s.shared.lock.status ≡ 1
      → Owns (f i) first s.shared (s.callers i)
      → ((j : ℕ) → i ≢ j → is_outside (s.callers j) ≡ true)
      → Holds f first (after s i (advance (f i) s.shared (s.callers i)))
  unfolding advance
  owner-Holds s i a (calls c e) o =
      rw c (answer-Holds s i (f i s.shared.environment) (ap (f i) (sym e)) a o)
  owner-Holds s i a (fails c e) o = rw c (own s i (s.shared, panicked) a (fails refl e) o)
  owner-Holds s i a (writes v e c q w) o =
      let lock : OnceLock A = record { status = s.shared.lock.status; value = some v } in
      rw c
        (own s i (record s.shared { lock = lock }, publishing v) a (publishes v e refl q w refl) o)
  owner-Holds s i a (publishes v e c q w l) o =
      let next =
        after s i (
          record s.shared { lock = record { status = 2; value = s.shared.lock.value } },
          reading,
        ) in
      let d : Done v e next = record {
        status = refl;
        value = l;
        environment = w;
        served =
            update-all (λ j x. IsServed v x) s.callers i reading (reads refl)
              (λ j n. outside (o j n));
      } in
      rw c (done i v e q d)

  advance-Holds :
      (s : System E A) (i : ℕ)
      → Holds f first s
      → Holds f first (after s i (advance (f i) s.shared (s.callers i)))
  advance-Holds s i (done k v e q d) = done k v e q (advance-Done (f i) v e s i d)
  advance-Holds s i (fresh a b o) =
      let r = advance (f i) s.shared (s.callers i) in
      elim (advance-Outside (f i) s.shared (s.callers i) (o i)) [
        | stays e p ↦
            still (Holds f first) s i r e
              (settle s i (r.1) (fresh a b o) (outside-no-owner (s.callers i) (o i)) p)
        | takes _ e c ↦
            own s i r (ap (λ x. x.lock.status) e) (calls c (ap (λ x. x.environment) e ∙ b))
              (λ j _. o j)
        | serves e _ _ ↦ absurd (omega (arith, a, e))
      ]
  advance-Holds s i (busy k a w o) =
      let r = advance (f i) s.shared (s.callers i) in
      elim (ℕ_discrete k i) [
        | yes e ↦
            let w' = subst (λ j. Owns (f j) first s.shared (s.callers j)) e w in
            let o' = subst (λ k. (j : ℕ) → k ≢ j → is_outside (s.callers j) ≡ true) e o in
            owner-Holds s i a w' o'
        | no n ↦ elim (advance-Outside (f i) s.shared (s.callers i) (o i n)) [
          | stays e p ↦
              still (Holds f first) s i r e
                (settle s i (r.1) (busy k a w o) (outside-no-owner (s.callers i) (o i n)) p)
          | takes e _ _ ↦ absurd (omega (arith, a, e))
          | serves e _ _ ↦ absurd (omega (arith, a, e))
        ]
      ]

  Step-Holds : (s e : System E A) → Holds f first s → Step f s e → Holds f first e
  unfolding is_outside
  Step-Holds s _ h (Step.calls_get i r) =
      settle s i get_start h (resting-no-owner (s.callers i) r) refl
  Step-Holds s _ h (Step.calls_init i r) =
      settle s i init_start h (resting-no-owner (s.callers i) r) refl
  Step-Holds s _ h (Step.runs i) = advance-Holds s i h

  Step-Done : (v : A) (e : E) (s m : System E A) → Done v e s → Step f s m → Done v e m
  unfolding is_outside
  Step-Done v e s _ d (Step.calls_get i r) = served-Done v e s i get_start d (outside refl)
  Step-Done v e s _ d (Step.calls_init i r) = served-Done v e s i init_start d (outside refl)
  Step-Done v e s _ d (Step.runs i) = advance-Done (f i) v e s i d

  start-Holds : Holds f first (start first)
  unfolding is_outside
  start-Holds = fresh refl refl (λ j. refl)

  pub Reaches-Holds : (s : System E A) → Reaches f (start first) s → Holds f first s
  Reaches-Holds _ Reaches.here = start-Holds
  Reaches-Holds _ (Reaches.then_step m e r h) = Step-Holds m e (Reaches-Holds m r) h

  pub Reaches-Done : (v : A) (e : E) (s m : System E A) → Done v e s → Reaches f s m → Done v e m
  Reaches-Done v e s _ d Reaches.here = d
  Reaches-Done v e s _ d (Reaches.then_step m n r h) =
      Step-Done v e m n (Reaches-Done v e s m d r) h
