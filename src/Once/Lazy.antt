-- ===== src/Once/Lazy.antt =====
-- `LazyLock` of src/sync/lazy.rs: `force` is `get_or_init` with the initializer that takes the
-- closure `init` out of its cell.
use athera.Prelude.{
  ℕ, ◌≡◌, refl, sym, ap, subst, ◌∙◌, Bool, true, false, Option, some, none, arith, ℕ_discrete,
}
use athera.Once.{
  Caller, idle, get_start, absent, init_start, exchanging, calling, panicked, writing, publishing,
  reading, returned, Initializer, System, Reaches, start,
}
use athera.Once.Invariant.{
  is_outside, IsServed, outside, reads, answered, Owns, calls, fails, writes, publishes, Holds,
  fresh, busy, done,
}
use athera.Once.Steps.{Reaches-Holds}

-- The value of an answer, or `a`.
value_or {ℓ κ} : {E : Type κ} {A : Type ℓ} → A → Option (E × A) → A
value_or a none = a
value_or a (some r) = r.1

module _ {ℓ κ} {F : Type κ} {A : Type ℓ} (call : F → A) where
  -- The closure that `force` hands on: a second call finds `init` empty, and its `expect` panics.
  unfoldable pub force_init : Initializer (Option F) A
  force_init none = none
  force_init (some f) = some (none, call f)

-- A caller that did not panic and has not returned.
unfoldable pub is_pending {ℓ} : {A : Type ℓ} → Caller A → Bool
is_pending panicked = false
is_pending (returned v) = false
is_pending _ = true

-- A caller that did not panic, and got the value `a` if it returned.
pub data IsForced {ℓ} {A : Type ℓ} (a : A) (c : Caller A) : Type ℓ where
  pending : is_pending c ≡ true → IsForced a c
  forced : c ≡ returned (some a) → IsForced a c

module _ {ℓ} {A : Type ℓ} where
  outside-pending : (c : Caller A) → is_outside c ≡ true → is_pending c ≡ true
  unfolding is_outside is_pending
  outside-pending idle o = refl
  outside-pending get_start o = refl
  outside-pending absent o = refl
  outside-pending init_start o = refl
  outside-pending exchanging o = refl
  outside-pending calling o = refl
  outside-pending panicked o = o
  outside-pending (writing v) o = refl
  outside-pending (publishing v) o = refl
  outside-pending reading o = refl
  outside-pending (returned v) o = o

  served-IsForced : (a b : A) (c : Caller A) → b ≡ a → IsServed b c → IsForced a c
  unfolding is_pending
  served-IsForced a b c e (outside o) = pending (outside-pending c o)
  served-IsForced a b c e (reads r) = pending (ap is_pending r)
  served-IsForced a b c e (answered r) = forced (r ∙ ap (λ x. returned (some x)) e)

module _ {ℓ κ} {F : Type κ} {A : Type ℓ} (call : F → A) (f : F) where
  -- The value that an initializer of `force` has answered from the closure `f`.
  answered_value : (e : Option F) (b : A) → force_init call (some f) ≡ some (e, b) → b ≡ call f
  unfolding force_init value_or
  answered_value e b q = sym (ap (λ x. value_or (call f) x) q)

  owner-IsForced :
      (s : System (Option F) A) (c : Caller A)
      → Owns (force_init call) (some f) s.shared c
      → IsForced (call f) c
  unfolding is_pending force_init
  owner-IsForced s c (calls e _) = pending (ap is_pending e)
  owner-IsForced s c (fails e q) = absurd (ground (arith, q))
  owner-IsForced s c (writes v _ e _ _) = pending (ap is_pending e)
  owner-IsForced s c (publishes v _ e _ _ _) = pending (ap is_pending e)

  IsForced-always :
      (s : System (Option F) A) (i : ℕ)
      → Holds (λ j. force_init call) (some f) s
      → IsForced (call f) (s.callers i)
  IsForced-always s i (fresh a b o) = pending (outside-pending (s.callers i) (o i))
  IsForced-always s i (busy k a w o) = elim (ℕ_discrete k i) [
    | yes e ↦ subst (λ j. IsForced (call f) (s.callers j)) e (owner-IsForced s (s.callers k) w)
    | no n ↦ pending (outside-pending (s.callers i) (o i n))
  ]
  IsForced-always s i (done k b e q d) =
      served-IsForced (call f) b (s.callers i) (answered_value e b q) (d.served i)

  -- However callers interleave on a new `LazyLock` with the closure `f`: none of them panics on an
  -- empty `init`, and one that has returned got the value of `f`.
  pub force-IsForced :
      (s : System (Option F) A) (i : ℕ)
      → Reaches (λ j. force_init call) (start (some f)) s
      → IsForced (call f) (s.callers i)
  force-IsForced s i r = IsForced-always s i (Reaches-Holds (λ j. force_init call) (some f) s r)
