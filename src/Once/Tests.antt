-- ===== src/Once/Tests.antt =====
-- Two callers of a cell of src/sync/once.rs, at which the theorems are applied.
use athera.Prelude.{ℕ, suc, ◌+◌, ◌≡◌, refl, Option, some, List, [], ◌∷◌}
use athera.Prelude.Update.{update}
use athera.Once.{
  returned, init_start, Initializer, System, Reaches, Step, after, advance, finish, start,
}
use athera.Once.Agree.{Agreed, get_or_init-Agreed}
use athera.Once.Lazy.{force_init, IsForced, force-IsForced}

-- The initializer of caller `i` counts the runs and answers `i + 5`.
abbrev counting : ℕ → Initializer ℕ ℕ
counting i e = some (suc e, i + 5)

module _ {ℓ} {E : Type ℓ} (f : ℕ → Initializer E ℕ) where
  abbrev play : System E ℕ → List ℕ → System E ℕ
  play s [] = s
  play s (i ∷ is) = play (after s i (advance (f i) s.shared (s.callers i))) is

  play-Reaches : (s m : System E ℕ) (is : List ℕ) → Reaches f s m → Reaches f s (play m is)
  play-Reaches s m [] r = r
  play-Reaches s m (i ∷ is) r =
      let next = after m i (advance (f i) m.shared (m.callers i)) in
      play-Reaches s next is (Reaches.then_step m next r (Step.runs i))

  -- Callers 0 and 1 call.
  abbrev both_called : E → System E ℕ
  both_called e =
      let s = after (start e) 0 ((start {A = ℕ} e).shared, init_start) in
      after s 1 (s.shared, init_start)

  both_called-Reaches : (e : E) → Reaches f (start e) (both_called e)
  unfolding update
  both_called-Reaches e =
      let s = after (start e) 0 ((start {A = ℕ} e).shared, init_start) in
      Reaches.then_step s (both_called e)
        (Reaches.then_step (start e) s Reaches.here (Step.calls_init 0 refl))
        (Step.calls_init 1 refl)

-- Caller 1 wins the exchange and caller 0 waits for it.
abbrev first_end : System ℕ ℕ
first_end = play counting (both_called counting 0) (0 ∷ 1 ∷ 1 ∷ 0 ∷ 1 ∷ 1 ∷ 0 ∷ 1 ∷ 1 ∷ [])

abbrev second_end : System ℕ ℕ
second_end = play counting first_end (0 ∷ 0 ∷ [])

first_returned : first_end.callers 1 ≡ returned (some 6)
unfolding advance update finish
first_returned = refl

second_returned : second_end.callers 0 ≡ returned (some 6)
unfolding advance update finish
second_returned = refl

get_or_init-Agreed_example : Agreed counting 0 second_end.shared.environment (some 6) (some 6)
get_or_init-Agreed_example =
    get_or_init-Agreed counting 0 first_end second_end 1 0 (some 6) (some 6)
      (play-Reaches counting (start 0) (both_called counting 0)
        (0 ∷ 1 ∷ 1 ∷ 0 ∷ 1 ∷ 1 ∷ 0 ∷ 1 ∷ 1 ∷ []) (both_called-Reaches counting 0))
      (play-Reaches counting first_end first_end (0 ∷ 0 ∷ []) Reaches.here) first_returned
      second_returned

-- A closure, and what it answers.
abbrev added_two : ℕ → ℕ
added_two n = n + 2

abbrev lazy_end : System (Option ℕ) ℕ
lazy_end =
    play (λ j. force_init added_two) (both_called (λ j. force_init added_two) (some 7))
      (0 ∷ 1 ∷ 0 ∷ 0 ∷ 1 ∷ 0 ∷ 0 ∷ 0 ∷ 1 ∷ 1 ∷ [])

force-IsForced_example : IsForced 9 (lazy_end.callers 0)
force-IsForced_example = force-IsForced added_two 7 lazy_end 0 (
    play-Reaches (λ j. force_init added_two) (start (some 7))
      (both_called (λ j. force_init added_two) (some 7))
      (0 ∷ 1 ∷ 0 ∷ 0 ∷ 1 ∷ 0 ∷ 0 ∷ 0 ∷ 1 ∷ 1 ∷ [])
      (both_called-Reaches (λ j. force_init added_two) (some 7)))
