-- ===== src/Bitmap/View/Iter.antt =====
-- `BitIter`: a loop over the iterator lists the wanted bits in increasing order.
use athera.Prelude.{
  ℕ, zero, suc, ◌+◌, ◌-◌, ◌≤◌, ◌<◌, ◌≡◌, refl, sym, ap, subst, ◌∙◌, Option, none, some, Bool, true,
  false, List, [], ◌∷◌, if◌then◌else◌, arith, ℕ_discrete,
}
use athera.Bitmap.Words.Bits.{bit, IsWords}
use athera.Bitmap.Words.Scan.{wanted, Finds}
use athera.Bitmap.Words.Search.{IsTight, scan_words-Finds}
use athera.Bitmap.View.{BitIter, next, advance}

-- What `n` calls of `next` yield up to the first `None`, as a `for` loop takes them.
unfoldable pub drain : ℕ → BitIter → List ℕ
drain zero it = []
drain (suc n) it = elim ((next it).1) [ none ↦ [] | some found ↦ found ∷ drain n ((next it).0) ]

-- The numbers of `[start, start + n)` that pass `p`, in order.
unfoldable pub listing : (ℕ → Bool) → ℕ → ℕ → List ℕ
listing p start zero = []
listing p start (suc n) =
    let rest = listing p (start + 1) n in if p start then start ∷ rest else rest

listing_none :
    (p : ℕ → Bool) (start n : ℕ)
    → ((i : ℕ) → start ≤ i → i < start + n → p i ≡ false)
    → listing p start n ≡ []
unfolding listing
listing_none p start zero h = refl
listing_none p start (suc n) h =
    rw (h start (omega arith) (omega arith))
      (listing_none p (start + 1) n (λ i a b. h i (omega arith) (omega arith)))

listing_first :
    (p : ℕ → Bool) (start n i : ℕ)
    → start ≤ i
    → i < start + n
    → p i ≡ true
    → ((j : ℕ) → start ≤ j → j < i → p j ≡ false)
    → listing p start n ≡ i ∷ listing p (i + 1) (start + n - (i + 1))
unfolding listing
listing_first p start zero i a b c h = absurd (omega arith)
listing_first p start (suc n) i a b c h = elim (ℕ_discrete start i) [
  | yes e ↦
      let here : p start ≡ true = ap p e ∙ c in
      let left : start + suc n - (start + 1) ≡ n = omega arith in
      rw here (
        subst
          (λ k. start ∷ listing p (start + 1) n ≡ k ∷ listing p (k + 1) (start + suc n - (k + 1))) e
          (rw left refl))
  | no ne ↦
      let left : start + suc n - (i + 1) ≡ start + 1 + n - (i + 1) = omega arith in
      rw (h start (omega arith) (omega arith), left)
        (listing_first p (start + 1) n i (omega arith) (omega arith) c
          (λ j d e. h j (omega arith) e))
]

module _ (words : List ℕ) (bits : ℕ) (want_free : Bool) (k : IsWords words)
    (t : IsTight bits words) where
  abbrev at : ℕ → BitIter
  at position = record { words = words; bits = bits; want_free = want_free; position = position }

  abbrev passes : ℕ → Bool
  passes i = wanted want_free (bit words i)

  -- One round of the loop, by the answer of the search.
  round :
      (n position : ℕ) (r : Option ℕ)
      → Finds passes position bits r
      → ((later : ℕ) → position < later → drain n (at later) ≡ listing passes later (bits - later))
      → elim ((advance (at position) r).1) [
        | none ↦ []
        | some found ↦ found ∷ drain n ((advance (at position) r).0)
      ]
        ≡ listing passes position (bits - position)
  unfolding advance
  round n position _ (Finds.nothing h) rest =
      sym (listing_none passes position (bits - position) (λ i a b. h i a (omega arith)))
  round n position _ (Finds.least i a b c h) rest =
      let left : position + (bits - position) - (i + 1) ≡ bits - (i + 1) = omega arith in
      ap (λ l. i ∷ l) (rest (i + 1) (omega arith))
      ∙ sym (
          listing_first passes position (bits - position) i a (omega arith) c h
          ∙ ap (λ m. i ∷ listing passes (i + 1) m) left)

  -- On words none of which lies wholly beyond `bits`, a loop over the iterator that is given more
  -- rounds than there are bits left yields the wanted bits below `bits`, each once and in increasing
  -- order.
  pub drain-listing :
      (n position : ℕ)
      → bits < n + position
      → drain n (at position) ≡ listing passes position (bits - position)
  unfolding drain next
  drain-listing zero position h =
      let left : bits - position ≡ 0 = omega arith in rw left (unfold listing in refl)
  drain-listing (suc n) position h =
      round n position _ (scan_words-Finds words bits position want_free k t)
        (λ later l. drain-listing n later (omega arith))
