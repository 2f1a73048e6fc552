-- ===== src/Spin/Tests.antt =====
-- Two harts at the spin lock of src/sync/spin.rs, at which the theorem is applied.
use athera.Prelude.{
  ℕ, zero, suc, ◌≡◌, ◌≢◌, refl, sym, ap, ◌∙◌, Bool, true, false, List, [], ◌∷◌, arith,
}
use athera.Prelude.Update.{update}
use athera.Spin.{
  Place, idle, spinning, disable_interrupt, advance, System, after, Step, Reaches, start,
}
use athera.Spin.Found.{Since, called, then_later}
use athera.Spin.Exclusion.{Exclusive, is_holding, lock-Exclusive}

abbrev play : System → List ℕ → System
play s [] = s
play s (i ∷ is) = play (after s i (advance s.lock (s.harts i).sie (s.harts i).place)) is

play-Reaches : (s m : System) (is : List ℕ) → Reaches s m → Reaches s (play m is)
play-Reaches s m [] r = r
play-Reaches s m (i ∷ is) r =
    let next = after m i (advance m.lock (m.harts i).sie (m.harts i).place) in
    play-Reaches s next is (Reaches.then_step m next r (Step.runs i))

-- A hart that is in `lock`, has the guard or drops it.
unfoldable waits : Place → Bool
waits idle = false
waits _ = true

-- Hart 0 has its interrupts on, and the others off.
abbrev bits : ℕ → Bool
bits zero = true
bits (suc j) = false

-- Hart 1 has the guard, and hart 0 spins.
abbrev contended : System
contended = play (start bits) (0 ∷ 1 ∷ 1 ∷ 0 ∷ [])

contended_spinning : (contended.harts 0).place ≡ spinning true
unfolding advance update disable_interrupt
contended_spinning = refl

no_idle : (p : Place) → waits p ≡ true → p ≢ idle
unfolding waits
no_idle p h e = let no = sym h ∙ ap waits e in ground (arith, no)

contended-Since : Since bits 1 false contended
unfolding advance update disable_interrupt waits
contended-Since =
    let one = play (start bits) (0 ∷ []) in
    let two = play (start bits) (0 ∷ 1 ∷ []) in
    let three = play (start bits) (0 ∷ 1 ∷ 1 ∷ []) in
    let s1 : Since bits 1 false two =
      called one (play-Reaches (start bits) (start bits) (0 ∷ []) Reaches.here) refl refl in
    let s2 : Since bits 1 false three = then_later two three s1 (Step.runs 1) (no_idle _ refl) in
    then_later three contended s2 (Step.runs 0) (no_idle _ refl)

lock-Exclusive_example : Exclusive contended 1 0 false
lock-Exclusive_example =
    lock-Exclusive bits contended 1 0 false contended-Since (λ e. omega (arith, e))
      (unfold advance update disable_interrupt is_holding in refl)
