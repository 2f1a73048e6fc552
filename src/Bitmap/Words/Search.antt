-- ===== src/Bitmap/Words/Search.antt =====
-- `scan_words`: the word-wise search finds the least bit that is wanted.
use athera.Prelude.{
  ℕ, zero, suc, ◌+◌, ◌-◌, ◌*◌, ◌/◌, ◌%◌, ◌^◌, ◌≤◌, ◌<◌, ◌≡◌, ◌≢◌, refl, sym, ap, subst, ◌∙◌, Option,
  none, some, Bool, true, false, ◌&&◌, List, [], ◌∷◌, length, length-drop, drop, ltb, ltb→lt, leb,
  if◌then◌else◌, arith, inl, inr, Bool-cases, ℕ_discrete,
}
use athera.Prelude.Bits.{testbit, testbit-zero}
use athera.Bitmap.Words.{is_empty, trailing_zeros, masked, scan_loop, scan_words}
use athera.Bitmap.Words.Bits.{bit, IsWords}
use athera.Bitmap.Words.Count.{bit-drop, bit_first, bit_rest}
use athera.Bitmap.Words.Scan.{
  wanted, Finds, trailing_zeros-IsLowest, is_zero-no, word_end, masked-lt, testbit-masked,
}

module _ (bits : ℕ) (want_free : Bool) where
  -- Where the words that are left end.
  row_end : List ℕ → ℕ
  row_end [] = 0
  row_end (w ∷ ws) = if is_empty ws then word_end bits true else 64 + row_end ws

  word_end-le : (is_last : Bool) → word_end bits is_last ≤ 64
  unfolding word_end
  word_end-le is_last = ground arith

  -- The answer of the rest of the loop, when the first word has nothing.
  later :
      (p : ℕ → Bool) (start mid limit : ℕ) (r : Option ℕ)
      → ((i : ℕ) → start ≤ i → i < mid → p i ≡ false)
      → start ≤ mid
      → Finds p mid limit r
      → Finds p start limit r
  later p start mid limit _ none_before le (Finds.nothing h) = Finds.nothing (λ i a b.
      elim (Bool-cases (ltb i mid)) [
        | inl l ↦ none_before i a (ground arith)
        | inr g ↦ h i (ground arith) b
      ])
  later p start mid limit _ none_before le (Finds.least i a b c h) =
      Finds.least i (omega arith) b c (λ j d e. elim (Bool-cases (ltb j mid)) [
        | inl l ↦ none_before j d (ground arith)
        | inr g ↦ h j (ground arith) e
      ])

  module _ (p : ℕ → Bool) (k s w : ℕ) (ws : List ℕ) (h : w < 2 ^ 64) (l : s < 64)
      (here : (j : ℕ) → p (64 * k + j) ≡ wanted want_free (bit (w ∷ ws) j)) where
    -- What the masked word says of the bits of this word.
    in_word :
        (j : ℕ)
        → j < 64
        → testbit (masked bits want_free (2 ^ s - 1) (is_empty ws) w) j
          ≡ (p (64 * k + j) && (leb s j && ltb j (word_end bits (is_empty ws))))
    in_word j m = ground (
      arith,
      testbit-masked bits want_free s (is_empty ws) w j h l m,
      here j,
      ap (wanted want_free) (bit_first w ws j m),
    )

    none_here :
        masked bits want_free (2 ^ s - 1) (is_empty ws) w ≡ 0
        → (i : ℕ) → 64 * k + s ≤ i
        → i < 64 * k + word_end bits (is_empty ws)
        → p i ≡ false
    none_here e i a b =
        let j : ℕ = i - 64 * k in
        let at : i ≡ 64 * k + (i - 64 * k) = omega arith in
        let small : i - 64 * k < 64 = omega (arith, word_end-le (is_empty ws)) in
        let zero_bit = ap (λ v. testbit v (i - 64 * k)) e ∙ testbit-zero (i - 64 * k) in
        ap p at ∙ ground (arith, in_word (i - 64 * k) small, zero_bit)

    found_here :
        (limit : ℕ)
        → 64 * k + word_end bits (is_empty ws) ≤ limit
        → masked bits want_free (2 ^ s - 1) (is_empty ws) w ≢ 0
        → Finds p
            (64 * k + s)
            limit
            (some (k * 64 + trailing_zeros 64 (masked bits want_free (2 ^ s - 1) (is_empty ws) w)))
    found_here limit le ne =
        let v = masked bits want_free (2 ^ s - 1) (is_empty ws) w in
        let r =
          trailing_zeros-IsLowest 64 v (masked-lt bits want_free (2 ^ s - 1) (is_empty ws) w h)
            ne in
        let t = trailing_zeros 64 v in
        let at : k * 64 + t ≡ 64 * k + t = omega arith in
        let said = in_word t r.below in
        rw at (
          Finds.least (64 * k + t) (ground (arith, said, r.is_set)) (ground (arith, said, r.is_set))
            (ground (arith, said, r.is_set))
            (λ i a b.
              let split : i ≡ 64 * k + (i - 64 * k) = omega arith in
              ap p split
              ∙ ground (
                arith,
                in_word (i - 64 * k) (omega (arith, r.below)),
                r.first (i - 64 * k) (omega arith),
                said,
                r.is_set,
              )))

  next_bits :
      (p : ℕ → Bool) (k w : ℕ) (ws : List ℕ)
      → ((j : ℕ) → p (64 * k + j) ≡ wanted want_free (bit (w ∷ ws) j))
      → (j : ℕ) → p (64 * (k + 1) + j) ≡ wanted want_free (bit ws j)
  next_bits p k w ws here j =
      let at : 64 * (k + 1) + j ≡ 64 * k + (j + 64) = omega arith in
      ap p at ∙ here (j + 64) ∙ ap (wanted want_free) (bit_rest w ws j)

  scan_loop-Finds :
      (p : ℕ → Bool) (k s : ℕ) (ws : List ℕ)
      → IsWords ws
      → s < 64
      → ((j : ℕ) → p (64 * k + j) ≡ wanted want_free (bit ws j))
      → Finds p (64 * k + s) (64 * k + row_end ws) (scan_loop bits want_free k (2 ^ s - 1) ws)
  unfolding scan_loop row_end IsWords word_end
  scan_loop-Finds p k s [] h l here = Finds.nothing (λ i a b. absurd (omega arith))
  scan_loop-Finds p k s (w ∷ []) h l here =
      elim (ℕ_discrete (masked bits want_free (2 ^ s - 1) true w) 0) [
        | no ne ↦
            rw (is_zero-no (masked bits want_free (2 ^ s - 1) true w) ne)
              (found_here p k s w [] h.0 l here (64 * k + word_end bits true) (omega arith) ne)
        | yes e ↦ rw e (Finds.nothing (none_here p k s w [] h.0 l here e))
      ]
  scan_loop-Finds p k s (w ∷ x ∷ ws) h l here =
      elim (ℕ_discrete (masked bits want_free (2 ^ s - 1) false w) 0) [
        | no ne ↦ rw (is_zero-no (masked bits want_free (2 ^ s - 1) false w) ne) (
            found_here p k s w (x ∷ ws) h.0 l here (64 * k + row_end (w ∷ x ∷ ws)) (omega arith) ne)
        | yes e ↦ rw e (
            later p (64 * k + s) (64 * k + 64) (64 * k + row_end (w ∷ x ∷ ws))
              (scan_loop bits want_free (k + 1) 0 (x ∷ ws))
              (none_here p k s w (x ∷ ws) h.0 l here e) (omega arith)
              (from_next (
                scan_loop-Finds p (k + 1) 0 (x ∷ ws) h.1 (omega arith)
                  (next_bits p k w (x ∷ ws) here))))
      ]
    where
      from_next :
          Finds p
            (64 * (k + 1) + 0)
            (64 * (k + 1) + row_end (x ∷ ws))
            (scan_loop bits want_free (k + 1) 0 (x ∷ ws))
          → Finds p
              (64 * k + 64)
              (64 * k + row_end (w ∷ x ∷ ws))
              (scan_loop bits want_free (k + 1) 0 (x ∷ ws))
      from_next f =
          let a : 64 * (k + 1) + 0 ≡ 64 * k + 64 = omega arith in
          let b : 64 * (k + 1) + row_end (x ∷ ws) ≡ 64 * k + row_end (w ∷ x ∷ ws) = omega arith in
          subst (λ y. Finds p (64 * k + 64) y (scan_loop bits want_free (k + 1) 0 (x ∷ ws))) b
            (subst
              (λ y.
                Finds p y (64 * (k + 1) + row_end (x ∷ ws))
                  (scan_loop bits want_free (k + 1) 0 (x ∷ ws)))
              a f)

  row_end-length :
      (ws : List ℕ) → 0 < length ws → row_end ws + 64 ≡ 64 * length ws + word_end bits true
  unfolding row_end
  row_end-length [] h = absurd (omega arith)
  row_end-length (w ∷ []) h = omega arith
  row_end-length (w ∷ x ∷ ws) h = omega (arith, row_end-length (x ∷ ws) (omega arith))

drop-IsWords : (n : ℕ) (ws : List ℕ) → IsWords ws → IsWords (drop n ws)
unfolding IsWords
drop-IsWords zero ws h = h
drop-IsWords (suc n) [] h = h
drop-IsWords (suc n) (w ∷ ws) h = drop-IsWords n ws h.1

-- Where the search stops: the last word is cut at `bits % 64`, no other word is.
unfoldable pub reach : ℕ → List ℕ → ℕ
reach bits ws = 64 * (length ws - 1) + word_end bits true

-- No word lies wholly beyond the bits in use.
pub record IsTight (bits : ℕ) (ws : List ℕ) : Type 0 where
  pub fits : bits ≤ 64 * length ws
  pub tight : 64 * length ws < bits + 64

pub bits-le-reach : (bits : ℕ) (ws : List ℕ) → bits ≤ 64 * length ws → bits ≤ reach bits ws
unfolding reach word_end
bits-le-reach bits ws h = ground arith

reach_tight : (bits : ℕ) (ws : List ℕ) → IsTight bits ws → 0 < bits → reach bits ws ≡ bits
unfolding reach word_end
reach_tight bits ws t h = ground (arith, t.fits, t.tight)

pub scan_words_out :
    (ws : List ℕ) (bits start : ℕ) (want_free : Bool)
    → bits ≤ start
    → scan_words ws bits start want_free ≡ none
unfolding scan_words
scan_words_out ws bits start want_free h = ground arith

module _ (ws : List ℕ) (bits start : ℕ) (want_free : Bool) (k : IsWords ws) where
  pub scan_words-reach :
      bits ≤ 64 * length ws
      → start < bits
      → Finds
          (λ i. wanted want_free (bit ws i))
          start
          (reach bits ws)
          (scan_words ws bits start want_free)
  unfolding scan_words reach
  scan_words-reach fits inside =
      let here =
        scan_loop-Finds bits want_free (λ i. wanted want_free (bit ws i)) (start / 64) (start % 64)
          (drop (start / 64) ws) (drop-IsWords (start / 64) ws k) (omega arith)
          (λ j. ap (wanted want_free) (sym (bit-drop (start / 64) ws j))) in
      let left = length-drop (start / 64) ws in
      let from : 64 * (start / 64) + start % 64 ≡ start = omega arith in
      let to : 64 * (start / 64) + row_end bits want_free (drop (start / 64) ws) ≡ reach bits ws =
        omega (
          arith,
          row_end-length bits want_free (drop (start / 64) ws) (omega (arith, left)),
          left,
        ) in
      let r = scan_loop bits want_free (start / 64) (2 ^ (start % 64) - 1) (drop (start / 64) ws) in
      rw (nonempty ws (omega arith), test)
        (subst (λ x. Finds (λ i. wanted want_free (bit ws i)) start x r) to
          (subst
            (λ x.
              Finds (λ i. wanted want_free (bit ws i)) x
                (64 * (start / 64) + row_end bits want_free (drop (start / 64) ws)) r)
            from here))
    where
      test : leb bits start ≡ false
      test = ground arith

      nonempty : (ws : List ℕ) → 0 < length ws → is_empty ws ≡ false
      nonempty [] h = absurd (omega arith)
      nonempty (x ∷ ws) h = refl

  -- Where no word lies wholly beyond `bits`, `scan_words` finds the least wanted bit from `start`
  -- on among the bits in use.
  pub scan_words-Finds :
      IsTight bits ws
      → Finds (λ i. wanted want_free (bit ws i)) start bits (scan_words ws bits start want_free)
  scan_words-Finds t = elim (Bool-cases (ltb start bits)) [
    | inl inside ↦
        subst
          (λ x.
            Finds (λ i. wanted want_free (bit ws i)) start x (scan_words ws bits start want_free))
          (reach_tight bits ws t (omega (arith, ltb→lt start bits inside)))
          (scan_words-reach t.fits (ltb→lt start bits inside))
    | inr out ↦
        rw (scan_words_out ws bits start want_free (ground arith))
          (Finds.nothing (λ i a b. absurd (ground arith)))
  ]
