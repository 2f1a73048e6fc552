-- ===== src/Spin/Exclusion.antt =====
-- Every interleaving of the harts on a new lock of src/sync/spin.rs: the guard and the interrupt bit.
use athera.Prelude.{
  ℕ, ◌≡◌, ◌≢◌, refl, sym, ap, subst, ◌∙◌, Bool, true, false, not, arith, ℕ_discrete,
}
use athera.Prelude.Update.{update-all, update_self, update-ne}
use athera.Spin.Found.{Since, Since-Reaches, Since-Remembers, Remembers, in_lock, in_guard, in_drop}
use athera.Spin.{
  Place, idle, spinning, holding, releasing, Hart, disable_interrupt, enable_interrupt, advance,
  System, after, Step, Reaches, start,
}

unfoldable pub is_holding : Place → Bool
is_holding (holding saved) = true
is_holding _ = false

-- A hart between `disable_interrupt` and `enable_interrupt` has its interrupts off.
unfoldable is_masked : Bool → Place → Bool
is_masked sie idle = true
is_masked sie _ = not sie

data Holds (s : System) : Type 0 where
  free :
      s.lock ≡ false
      → ((j : ℕ) → is_holding (s.harts j).place ≡ false)
      → ((j : ℕ) → is_masked (s.harts j).sie (s.harts j).place ≡ true)
      → Holds s
  held :
      (k : ℕ)
      → s.lock ≡ true
      → is_holding (s.harts k).place ≡ true
      → ((j : ℕ) → k ≢ j → is_holding (s.harts j).place ≡ false)
      → ((j : ℕ) → is_masked (s.harts j).sie (s.harts j).place ≡ true)
      → Holds s

all_masked : (s : System) → Holds s → (j : ℕ) → is_masked (s.harts j).sie (s.harts j).place ≡ true
all_masked s (free _ _ m) = m
all_masked s (held _ _ _ _ m) = m

-- What an access does, by the place it starts from.
data Moves (lock : Bool) (p : Place) (r : Bool × Hart) : Type 0 where
  waits : r.0 ≡ lock → is_holding p ≡ false → is_holding (r.1.place) ≡ false → Moves lock p r
  takes :
      lock ≡ false
      → r.0 ≡ true
      → is_holding p ≡ false
      → is_holding (r.1.place) ≡ true
      → Moves lock p r
  gives : r.0 ≡ false → is_holding p ≡ true → is_holding (r.1.place) ≡ false → Moves lock p r

advance-Moves : (lock sie : Bool) (p : Place) → Moves lock p (advance lock sie p)
unfolding advance is_holding
advance-Moves lock sie idle = waits refl refl refl
advance-Moves true sie (spinning saved) = waits refl refl refl
advance-Moves false sie (spinning saved) = takes refl refl refl refl
advance-Moves lock sie (holding saved) = gives refl refl refl
advance-Moves lock sie (releasing saved) = waits refl refl refl

advance-masked :
    (lock sie : Bool) (p : Place)
    → is_masked sie p ≡ true
    → is_masked ((advance lock sie p).1.sie) ((advance lock sie p).1.place) ≡ true
unfolding advance is_masked disable_interrupt
advance-masked lock sie idle m = refl
advance-masked true sie (spinning saved) m = m
advance-masked false sie (spinning saved) m = m
advance-masked lock sie (holding saved) m = m
advance-masked lock sie (releasing saved) m = refl

-- Hart `i` turns to `h`, which is masked.
masked :
    (s : System) (i : ℕ) (r : Bool × Hart)
    → ((j : ℕ) → is_masked (s.harts j).sie (s.harts j).place ≡ true)
    → is_masked (r.1.sie) (r.1.place) ≡ true
    → (j : ℕ) → is_masked ((after s i r).harts j).sie ((after s i r).harts j).place ≡ true
masked s i r m p = update-all (λ j h. is_masked h.sie h.place ≡ true) s.harts i (r.1) p (λ j _. m j)

-- A hart without the guard turns to a place without it, and the lock stays.
wait :
    (s : System) (i : ℕ) (r : Bool × Hart)
    → Holds s
    → r.0 ≡ s.lock
    → is_holding (s.harts i).place ≡ false
    → is_holding (r.1.place) ≡ false
    → is_masked (r.1.sie) (r.1.place) ≡ true
    → Holds (after s i r)
wait s i r (free a n m) e p q w =
    free (e ∙ a) (update-all (λ j h. is_holding h.place ≡ false) s.harts i (r.1) q (λ j _. n j))
      (masked s i r m w)
wait s i r (held k a h n m) e p q w =
    let other : i ≢ k = λ e.
      let no = subst (λ j. is_holding (s.harts j).place ≡ false) e p in ground (arith, h, no) in
    held k (e ∙ a)
      (subst (λ x. is_holding x.place ≡ true) (sym (update-ne s.harts i (r.1) k other)) h)
      (update-all (λ j h. k ≢ j → is_holding h.place ≡ false) s.harts i (r.1) (λ _. q) (λ j _. n j))
      (masked s i r m w)

move :
    (s : System) (i : ℕ) (r : Bool × Hart)
    → Holds s
    → Moves s.lock (s.harts i).place r
    → is_masked (r.1.sie) (r.1.place) ≡ true
    → Holds (after s i r)
move s i r h (waits e p q) w = wait s i r h e p q w
move s i r (free a n m) (takes f t p q) w =
    held i t (subst (λ x. is_holding x.place ≡ true) (sym (update_self s.harts i (r.1))) q)
      (λ j c. subst (λ x. is_holding x.place ≡ false) (sym (update-ne s.harts i (r.1) j c)) (n j))
      (masked s i r m w)
move s i r (held k a h n m) (takes f t p q) w = let no = sym a ∙ f in absurd (ground (arith, no))
move s i r (free a n m) (gives f p q) w = let no = sym p ∙ n i in absurd (ground (arith, no))
move s i r (held k a h n m) (gives f p q) w = elim (ℕ_discrete k i) [
  | yes e ↦
      let n' = subst (λ k. (j : ℕ) → k ≢ j → is_holding (s.harts j).place ≡ false) e n in
      free f (update-all (λ j h. is_holding h.place ≡ false) s.harts i (r.1) q n')
        (masked s i r m w)
  | no c ↦ let no = sym p ∙ n i c in absurd (ground (arith, no))
]

Step-Holds : (s e : System) → Holds s → Step s e → Holds e
unfolding is_holding is_masked
Step-Holds s _ h (Step.runs i) =
    move s i (advance s.lock (s.harts i).sie (s.harts i).place) h
      (advance-Moves s.lock (s.harts i).sie (s.harts i).place)
      (advance-masked s.lock (s.harts i).sie (s.harts i).place (all_masked s h i))
Step-Holds s _ h (Step.sets i sie e) =
    wait s i (s.lock, record { sie = sie; place = idle }) h refl (ap is_holding e) refl refl

Reaches-Holds : (sies : ℕ → Bool) (s : System) → Reaches (start sies) s → Holds s
unfolding is_holding is_masked
Reaches-Holds sies _ Reaches.here = free refl (λ j. refl) (λ j. refl)
Reaches-Holds sies _ (Reaches.then_step m e r h) = Step-Holds m e (Reaches-Holds sies m r) h

-- Hart `i` has the guard since its bit was `found`, and hart `j` is another: `j` has no guard, the
-- interrupts of `i` are off, and the two accesses of its `drop` free the lock and make its bit
-- `found`.
pub record Exclusive (s : System) (i j : ℕ) (found : Bool) : Type 0 where
  other : is_holding (s.harts j).place ≡ false
  off : (s.harts i).sie ≡ false
  released :
      advance s.lock (s.harts i).sie (s.harts i).place
      ≡ (false, record { sie = (s.harts i).sie; place = releasing found })
  dropped :
      (lock : Bool)
      → advance lock (s.harts i).sie (releasing found)
        ≡ (lock, record { sie = found; place = idle })

restored : (saved sie : Bool) → sie ≡ false → enable_interrupt saved sie ≡ saved
unfolding enable_interrupt
restored true sie e = refl
restored false sie e = e

alone :
    (s : System) (i j : ℕ)
    → Holds s
    → i ≢ j
    → is_holding (s.harts i).place ≡ true
    → is_holding (s.harts j).place ≡ false
alone s i j (free _ n _) c h = n j
alone s i j (held k _ _ n _) c h = elim (ℕ_discrete k i) [
  | yes e ↦ n j (λ q. c (sym e ∙ q))
  | no d ↦ let no = sym h ∙ n i d in absurd (ground (arith, no))
]

held_place :
    (found : Bool) (p : Place) → Remembers found p → is_holding p ≡ true → p ≡ holding found
unfolding is_holding
held_place found p (in_guard e) h = e
held_place found p (in_lock e) h = let no = sym h ∙ ap is_holding e in absurd (ground (arith, no))
held_place found p (in_drop e) h = let no = sym h ∙ ap is_holding e in absurd (ground (arith, no))

-- However harts interleave on a new lock: while hart `i`, which has called `lock` when its interrupt
-- bit was `found`, has the guard, no other hart has one, the interrupts of `i` are off, and its `drop`
-- frees the lock and makes the bit `found` again.
pub lock-Exclusive :
    (sies : ℕ → Bool) (s : System) (i j : ℕ) (found : Bool)
    → Since sies i found s
    → i ≢ j
    → is_holding (s.harts i).place ≡ true
    → Exclusive s i j found
unfolding is_masked advance
lock-Exclusive sies s i j found r c p =
    let h = Reaches-Holds sies s (Since-Reaches sies i found s r) in
    let place = held_place found (s.harts i).place (Since-Remembers sies i found s r) p in
    let mask = subst (λ x. is_masked (s.harts i).sie x ≡ true) place (all_masked s h i) in
    let off : (s.harts i).sie ≡ false = ground (arith, mask) in
    record {
      other = alone s i j h c p;
      off = off;
      released = rw place refl;
      dropped =
          λ lock k. (lock, record { sie = restored found (s.harts i).sie off k; place = idle });
    }
