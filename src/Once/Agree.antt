-- ===== src/Once/Agree.antt =====
-- What the callers of a cell of src/sync/once.rs get.
use athera.Prelude.{
  ℕ, ◌≡◌, ◌≢◌, sym, ap, subst, ◌∙◌, Bool, true, false, Option, some, none, arith, ℕ_discrete,
}
use athera.Once.{Caller, reading, returned, Initializer, System, Reaches, start}
use athera.Once.Invariant.{
  is_owner, is_outside, outside, reads, answered, Done, Holds, fresh, busy, done,
}
use athera.Once.Steps.{Owns-is_owner, Reaches-Holds, Reaches-Done}

-- What a caller got.
seen {ℓ} : {A : Type ℓ} → Caller A → Option A
seen (returned v) = v
seen _ = none

is_reading {ℓ} : {A : Type ℓ} → Caller A → Bool
is_reading reading = true
is_reading _ = false

-- Initializer `k` ran from the environment `first`, once; `v` and `w` are its value.
pub record Agreed {ℓ κ} {E : Type κ} {A : Type ℓ} (f : ℕ → Initializer E A) (first last : E)
    (v w : Option A) : Type (ℓ ⊔ κ) where
  k : ℕ
  value : A
  ran : f k first ≡ some (last, value)
  earlier : v ≡ some value
  later : w ≡ some value

module _ {ℓ} {A : Type ℓ} where
  outside-returned : (c : Caller A) (v : Option A) → is_outside c ≡ true → c ≢ returned v
  unfolding is_outside
  outside-returned c v o e = let no = ap is_outside (sym e) ∙ o in ground (arith, no)

module _ {ℓ κ} {E : Type κ} {A : Type ℓ} where
  Done-returned :
      (a : A) (e : E) (s : System E A) (i : ℕ) (v : Option A)
      → Done a e s
      → s.callers i ≡ returned v
      → v ≡ some a
  unfolding seen is_reading
  Done-returned a e s i v d c = elim (d.served i) [
    | outside o ↦ absurd (outside-returned (s.callers i) v o c)
    | reads r ↦ let no = ap is_reading (sym r ∙ c) in absurd (ground (arith, no))
    | answered r ↦ ap seen (sym c ∙ r)
  ]

  module _ (f : ℕ → Initializer E A) (first : E) where
    agree :
        (s m : System E A) (i j : ℕ) (v w : Option A)
        → Holds f first s
        → Reaches f s m
        → s.callers i ≡ returned v
        → m.callers j ≡ returned w
        → Agreed f first m.shared.environment v w
    unfolding is_owner
    agree s m i j v w (fresh a b o) r c q = absurd (outside-returned (s.callers i) v (o i) c)
    agree s m i j v w (busy k a x o) r c q = elim (ℕ_discrete k i) [
      | yes e ↦
          let owns = Owns-is_owner (f k) first s.shared (s.callers k) x in
          let no = sym (ap is_owner c) ∙ subst (λ j. is_owner (s.callers j) ≡ true) e owns in
          absurd (ground (arith, no))
      | no n ↦ absurd (outside-returned (s.callers i) v (o i n) c)
    ]
    agree s m i j v w (done k a e x d) r c q =
        let d' = Reaches-Done f first a e s m d r in
        record {
          k = k;
          value = a;
          ran = subst (λ e. f k first ≡ some (e, a)) (sym d'.environment) x;
          earlier = Done-returned a e s i v d c;
          later = Done-returned a e m j w d' q;
        }

    -- However callers with initializers of their own interleave on a new cell: a value that a
    -- caller has got and a value that any caller gets then or later are the same; it was written,
    -- and it is that of one of the initializers, which ran from the first environment and left the
    -- environment as it is.
    pub get_or_init-Agreed :
        (s m : System E A) (i j : ℕ) (v w : Option A)
        → Reaches f (start first) s
        → Reaches f s m
        → s.callers i ≡ returned v
        → m.callers j ≡ returned w
        → Agreed f first m.shared.environment v w
    get_or_init-Agreed s m i j v w r q = agree s m i j v w (Reaches-Holds f first s r) q
