-- ===== src/Bitmap/Map/Valid.antt =====
-- The invariant of `BitMap`: the counter counts the bits, and no bit beyond the capacity is set; and
-- the ways in which a method changes a map.
use athera.Prelude.{
  ℕ, zero, suc, ◌+◌, ◌-◌, ◌*◌, ◌≤◌, ◌<◌, ◌≡◌, ◌≢◌, refl, sym, ap, ◌∙◌, Bool, true, false, not, ◌&&◌,
  ◌||◌, List, length, ltb, leb, arith, inl, inr, Bool-cases, ℕ_discrete,
}
use athera.Prelude.Count.{count, count-le}
use athera.Bitmap.Words.Bits.{bit, IsWords}
use athera.Bitmap.Words.Count.{SetsRun, ClearsRun, count_run}
use athera.Bitmap.Map.{BitMap}

pub record IsValid (m : BitMap) : Type 0 where
  pub words : IsWords m.words
  pub fits : m.bits ≤ 64 * length m.words
  pub beyond : (i : ℕ) → m.bits ≤ i → bit m.words i ≡ false
  pub counted : m.used ≡ count (bit m.words) m.bits

-- The bits `[start, start + n)` were clear and are set.
pub record Takes (m : BitMap) (start n : ℕ) (m' : BitMap) : Type 0 where
  pub inside : start + n ≤ m.bits
  were_clear : (j : ℕ) → start ≤ j → j < start + n → bit m.words j ≡ false
  pub same_bits : m'.bits ≡ m.bits
  pub changed : (j : ℕ) → bit m'.words j ≡ (bit m.words j || (leb start j && ltb j (start + n)))
  more_used : m'.used ≡ m.used + n
  pub valid : IsValid m'

-- The bits `[start, start + n)` were set and are clear.
pub record Frees (m : BitMap) (start n : ℕ) (m' : BitMap) : Type 0 where
  pub inside : start + n ≤ m.bits
  were_set : (j : ℕ) → start ≤ j → j < start + n → bit m.words j ≡ true
  pub same_bits : m'.bits ≡ m.bits
  pub changed : (j : ℕ) → bit m'.words j ≡ (bit m.words j && not (leb start j && ltb j (start + n)))
  pub less_used : m'.used + n ≡ m.used
  pub valid : IsValid m'

count_all : (p : ℕ → Bool) (n : ℕ) → ((i : ℕ) → i < n → p i ≡ true) → count p n ≡ n
unfolding count
count_all p zero h = refl
count_all p (suc n) h = ground (arith, count_all p n (λ i l. h i (omega arith)), h n (omega arith))

count_pos : (p : ℕ → Bool) (n i : ℕ) → i < n → p i ≡ true → 0 < count p n
unfolding count
count_pos p zero i l h = absurd (omega arith)
count_pos p (suc n) i l h = elim (ℕ_discrete i n) [
  | yes q ↦ let last = sym (ap p q) ∙ h in ground (arith, last)
  | no q ↦ omega (arith, count_pos p n i (omega arith) h)
]

count_full : (p : ℕ → Bool) (n : ℕ) → count p n ≡ n → (i : ℕ) → i < n → p i ≡ true
unfolding count
count_full p zero e i l = absurd (omega arith)
count_full p (suc n) e i l =
    let last : p n ≡ true = ground (arith, count-le p n) in
    elim (ℕ_discrete i n) [
      | yes q ↦ ap p q ∙ last
      | no q ↦ count_full p n (ground (arith, last)) i (omega arith)
    ]

module _ (m : BitMap) (v : IsValid m) where
  pub full_map : m.used ≡ m.bits → (i : ℕ) → i < m.bits → bit m.words i ≡ true
  full_map e = count_full (bit m.words) m.bits (sym v.counted ∙ e)

  pub not_full : m.used ≢ m.bits → ¬ ((i : ℕ) → i < m.bits → bit m.words i ≡ true)
  not_full ne all = ne (v.counted ∙ count_all (bit m.words) m.bits all)

  pub empty_map : m.used ≡ 0 → (i : ℕ) → bit m.words i ≡ false
  empty_map e i = elim (Bool-cases (bit m.words i)) [
    | inr h ↦ h
    | inl h ↦ elim (Bool-cases (ltb i m.bits)) [
      | inr out ↦ v.beyond i (ground arith)
      | inl inside ↦
          absurd (omega (arith, v.counted, e, count_pos (bit m.words) m.bits i (ground arith) h))
    ]
  ]

  -- The words after a run of clear bits was set.
  pub taken :
      (start n : ℕ) (words : List ℕ)
      → start + n ≤ m.bits
      → ((j : ℕ) → start ≤ j → j < start + n → bit m.words j ≡ false)
      → SetsRun m.words start n words
      → Takes m start n (record m { words = words; used = m.used + n })
  taken start n words inside clear s = record {
    inside = inside;
    were_clear = clear;
    same_bits = refl;
    changed = s.bits;
    more_used = refl;
    valid = record {
      words = s.keeps.words;
      fits = omega (arith, v.fits, s.keeps.same_length);
      beyond = λ i h. ground (arith, s.bits i, v.beyond i h);
      counted = omega (
        arith,
        v.counted,
        count_run (bit m.words) (bit words) start n m.bits inside clear s.bits,
      );
    };
  }

  pub freed :
      (start n : ℕ) (words : List ℕ)
      → start + n ≤ m.bits
      → ((j : ℕ) → start ≤ j → j < start + n → bit m.words j ≡ true)
      → ClearsRun m.words start n words
      → Frees m start n (record m { words = words; used = m.used - n })
  freed start n words inside were c =
      let counted =
        count_run (bit words) (bit m.words) start n m.bits inside
          (λ j a b. ground (arith, c.bits j)) (λ j. ground (arith, c.bits j, were j)) in
      record {
        inside = inside;
        were_set = were;
        same_bits = refl;
        changed = c.bits;
        less_used = omega (arith, v.counted, counted);
        valid = record {
          words = c.keeps.words;
          fits = omega (arith, v.fits, c.keeps.same_length);
          beyond = λ i h. ground (arith, c.bits i, v.beyond i h);
          counted = omega (arith, v.counted, counted);
        };
      }
