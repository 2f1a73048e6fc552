-- ===== src/Spin/Found.antt =====
-- What a hart in `lock` or in the drop of src/sync/spin.rs remembers of its interrupt bit.
use athera.Prelude.{
  ℕ, ◌≡◌, ◌≢◌, refl, sym, ap, subst, ◌∙◌, Bool, true, false, arith, ℕ_discrete, inl, inr, ◌⊎◌,
}
use athera.Prelude.Update.{update-all, update_self, update-ne}
use athera.Spin.{
  Place, idle, spinning, holding, releasing, Hart, disable_interrupt, advance, System, after, Step,
  Reaches, start,
}

unfoldable is_idle : Place → Bool
is_idle idle = true
is_idle _ = false

-- Hart `i` has called `lock` when its bit was `found`, and has not come to the end of the `drop`.
pub data Since (sies : ℕ → Bool) (i : ℕ) (found : Bool) : System → Type 0 where
  called :
      (s : System)
      → Reaches (start sies) s
      → (s.harts i).place ≡ idle
      → (s.harts i).sie ≡ found
      → Since sies i found (after s i (advance s.lock (s.harts i).sie (s.harts i).place))
  then_later :
      (s e : System)
      → Since sies i found s
      → Step s e
      → (e.harts i).place ≢ idle
      → Since sies i found e

pub Since-Reaches :
    (sies : ℕ → Bool) (i : ℕ) (found : Bool) (s : System)
    → Since sies i found s
    → Reaches (start sies) s
Since-Reaches sies i found _ (called s r _ _) = Reaches.then_step s _ r (Step.runs i)
Since-Reaches sies i found _ (then_later s e m h _) =
    Reaches.then_step s e (Since-Reaches sies i found s m) h

-- A place that remembers the bit.
pub data Remembers (found : Bool) (p : Place) : Type 0 where
  in_lock : p ≡ spinning found → Remembers found p
  in_guard : p ≡ holding found → Remembers found p
  in_drop : p ≡ releasing found → Remembers found p

-- What hart `i` turns to when it runs.
turned :
    (s : System) (j i : ℕ)
    → j ≡ i
    → (after s j (advance s.lock (s.harts j).sie (s.harts j).place)).harts i
      ≡ (advance s.lock (s.harts i).sie (s.harts i).place).1
turned s j i e =
    let r = advance s.lock (s.harts j).sie (s.harts j).place in
    subst (λ k. (after s j r).harts k ≡ (advance s.lock (s.harts k).sie (s.harts k).place).1) e
      (update_self s.harts j (r.1))

-- A hart that remembers the bit goes on, but not to the end.
advance-Remembers :
    (lock sie found : Bool) (p : Place)
    → Remembers found p
    → (advance lock sie p).1.place ≢ idle
    → Remembers found ((advance lock sie p).1.place)
unfolding advance
advance-Remembers true sie found p (in_lock e) n = rw e (in_lock refl)
advance-Remembers false sie found p (in_lock e) n = rw e (in_guard refl)
advance-Remembers lock sie found p (in_guard e) n = rw e (in_drop refl)
advance-Remembers lock sie found p (in_drop e) n =
    let over : (advance lock sie p).1.place ≡ idle = rw e refl in absurd (n over)

idle-Remembers : (found : Bool) (p : Place) → p ≡ idle → ¬ Remembers found p
unfolding is_idle
idle-Remembers found p e (in_lock h) = let no = ap is_idle (sym e ∙ h) in ground (arith, no)
idle-Remembers found p e (in_guard h) = let no = ap is_idle (sym e ∙ h) in ground (arith, no)
idle-Remembers found p e (in_drop h) = let no = ap is_idle (sym e ∙ h) in ground (arith, no)

Step-Remembers :
    (i : ℕ) (found : Bool) (s e : System)
    → Remembers found (s.harts i).place
    → Step s e
    → (e.harts i).place ≢ idle
    → Remembers found (e.harts i).place
Step-Remembers i found s _ m (Step.runs j) n = elim (ℕ_discrete j i) [
  | yes e ↦
      let r = advance s.lock (s.harts i).sie (s.harts i).place in
      let same = turned s j i e in
      subst (λ h. Remembers found h.place) (sym same)
        (advance-Remembers s.lock (s.harts i).sie found (s.harts i).place m
          (λ q. n (ap (λ h. h.place) same ∙ q)))
  | no c ↦
      let r = advance s.lock (s.harts j).sie (s.harts j).place in
      subst (λ h. Remembers found h.place) (sym (update-ne s.harts j (r.1) i c)) m
]
Step-Remembers i found s _ m (Step.sets j sie q) n = elim (ℕ_discrete j i) [
  | yes e ↦
      let still = subst (λ k. (s.harts k).place ≡ idle) e q in
      absurd (idle-Remembers found (s.harts i).place still m)
  | no c ↦
      let h : Hart = record { sie = sie; place = idle } in
      subst (λ h. Remembers found h.place) (sym (update-ne s.harts j h i c)) m
]

pub Since-Remembers :
    (sies : ℕ → Bool) (i : ℕ) (found : Bool) (s : System)
    → Since sies i found s
    → Remembers found (s.harts i).place
unfolding advance disable_interrupt
Since-Remembers sies i found _ (called s r p q) =
    let moved = advance s.lock (s.harts i).sie (s.harts i).place in
    subst (λ h. Remembers found h.place) (sym (update_self s.harts i (moved.1)))
      (in_lock (rw (p, q) refl))
Since-Remembers sies i found _ (then_later s e m h n) =
    Step-Remembers i found s e (Since-Remembers sies i found s m) h n

idle_or_not : (p : Place) → (p ≡ idle) ⊎ (p ≢ idle)
unfolding is_idle
idle_or_not idle = inl refl
idle_or_not (spinning b) = inr (λ e. let no = ap is_idle e in ground (arith, no))
idle_or_not (holding b) = inr (λ e. let no = ap is_idle e in ground (arith, no))
idle_or_not (releasing b) = inr (λ e. let no = ap is_idle e in ground (arith, no))

begins :
    (sies : ℕ → Bool) (i : ℕ) (s e : System)
    → Reaches (start sies) s
    → (s.harts i).place ≡ idle
    → Step s e
    → (e.harts i).place ≢ idle
    → Since sies i (s.harts i).sie e
begins sies i s _ r p (Step.runs j) n = elim (ℕ_discrete i j) [
  | yes e ↦
      subst
        (λ k.
          Since sies i (s.harts i).sie
            (after s k (advance s.lock (s.harts k).sie (s.harts k).place)))
        e (called s r p refl)
  | no c ↦
      let h = advance s.lock (s.harts j).sie (s.harts j).place in
      absurd (n (ap (λ x. x.place) (update-ne s.harts j (h.1) i (λ e. c (sym e))) ∙ p))
]
begins sies i s _ r p (Step.sets j sie q) n =
    let h : Hart = record { sie = sie; place = idle } in
    absurd (
      n (
        update-all (λ k x. k ≡ i → x.place ≡ idle) s.harts j h (λ e. refl)
          (λ k c e. subst (λ l. (s.harts l).place ≡ idle) (sym e) p) i refl))

-- Whoever is in `lock`, has the guard or drops it has called `lock` at some bit.
Reaches-Since :
    (sies : ℕ → Bool) (i : ℕ) (s : System)
    → Reaches (start sies) s
    → (s.harts i).place ≢ idle
    → (found : Bool) × Since sies i found s
Reaches-Since sies i _ Reaches.here n = absurd (n refl)
Reaches-Since sies i _ (Reaches.then_step m e r h) n = elim (idle_or_not (m.harts i).place) [
  | inl p ↦ ((m.harts i).sie, begins sies i m e r p h n)
  | inr q ↦ let (found, since) = Reaches-Since sies i m r q in (found, then_later m e since h n)
]
