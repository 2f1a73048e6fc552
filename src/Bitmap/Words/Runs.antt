-- ===== src/Bitmap/Words/Runs.antt =====
-- `alloc_range_in`: the loop that measures the runs of clear bits finds the first one that is long
-- enough.
use athera.Prelude.{
  ℕ, zero, suc, ◌+◌, ◌-◌, ◌≤◌, ◌<◌, ◌≡◌, sym, ap, subst, ◌∙◌, Option, none, some, true, false, List,
  ltb, ◌==◌, if◌then◌else◌, arith, inl, inr, Bool-cases, ℕ_discrete,
}
use athera.Bitmap.Words.{is_bit_set, find_run}
use athera.Bitmap.Words.Bits.{bit, is_bit_set-bit}

-- The `n` bits from `s` on are clear.
abbrev pub IsClearRun : List ℕ → ℕ → ℕ → Type 0
IsClearRun ws s n = (j : ℕ) → s ≤ j → j < s + n → bit ws j ≡ false

-- A set bit stops every run of `n` bits from `s` on.
abbrev pub IsBlocked : List ℕ → ℕ → ℕ → Type 0
IsBlocked ws s n = (j : ℕ) × (s ≤ j) × (j < s + n) × (bit ws j ≡ true)

pub data FindsRun (ws : List ℕ) (n bits : ℕ) : Option ℕ → Type 0 where
  nothing : ((s : ℕ) → s + n ≤ bits → IsBlocked ws s n) → FindsRun ws n bits none
  first :
      (start : ℕ)
      → start + n ≤ bits
      → IsClearRun ws start n
      → ((s : ℕ) → s < start → IsBlocked ws s n)
      → FindsRun ws n bits (some start)

-- What the loop knows at bit `i`: the `len` bits before it are clear, and every earlier start is
-- blocked.
record Measures (ws : List ℕ) (n i start len : ℕ) : Type 0 where
  short : len < n
  behind : len ≤ i
  begins : 0 < len → start + len ≡ i
  clear : IsClearRun ws (i - len) len
  blocked : (s : ℕ) → s + len < i → IsBlocked ws s n

module _ (ws : List ℕ) (n : ℕ) where
  at_set :
      (i start len : ℕ)
      → Measures ws n i start len
      → bit ws i ≡ true
      → Measures ws n (i + 1) start 0
  at_set i start len m b = record {
    short = omega (arith, m.short);
    behind = omega arith;
    begins = λ h. absurd (omega arith);
    clear = λ j a c. absurd (omega arith);
    blocked = λ s h. elim (Bool-cases (ltb (s + len) i)) [
      | inl l ↦ m.blocked s (ground arith)
      | inr g ↦ (i, omega arith, ground (arith, m.short), b)
    ];
  }

  longer : (i start len : ℕ) → ℕ
  longer i start len = if len == 0 then i else start

  longer-Measures :
      (i start len : ℕ)
      → Measures ws n i start len
      → bit ws i ≡ false
      → (longer i start len + (len + 1) ≡ i + 1) × IsClearRun ws (longer i start len) (len + 1)
  unfolding longer
  longer-Measures i start len m b =
      let at : (if len == 0 then i else start) + (len + 1) ≡ i + 1 = ground (arith, m.begins) in
      (
        at,
        λ j a c. elim (ℕ_discrete j i) [
          | yes e ↦ ap (bit ws) e ∙ b
          | no ne ↦ m.clear j (omega (arith, at)) (omega (arith, at, m.behind))
        ],
      )

  find_run-FindsRun :
      (k i start len : ℕ)
      → Measures ws n i start len
      → FindsRun ws n (k + i) (find_run ws n k i start len)
  unfolding find_run longer
  find_run-FindsRun zero i start len m =
      FindsRun.nothing (λ s h. m.blocked s (omega (arith, m.short)))
  find_run-FindsRun (suc k) i start len m =
      let more : suc k + i ≡ k + (i + 1) = omega arith in
      rw more (elim (Bool-cases (is_bit_set ws i)) [
        | inl b ↦ rw b (
            find_run-FindsRun k (i + 1) start 0
              (at_set i start len m (sym (is_bit_set-bit ws i) ∙ b)))
        | inr b ↦
            let r = longer-Measures i start len m (sym (is_bit_set-bit ws i) ∙ b) in
            elim (Bool-cases (len + 1 == n)) [
              | inl e ↦
                  rw (b, e)
                    (FindsRun.first (longer i start len) (ground (arith, r.0))
                      (λ j a c. r.1 j a (ground arith)) (λ s h. m.blocked s (omega (arith, r.0))))
              | inr ne ↦
                  rw (b, ne)
                    (find_run-FindsRun k (i + 1) (longer i start len) (len + 1) (record {
                      short = ground (arith, m.short);
                      behind = omega (arith, m.behind);
                      begins = λ h. r.0;
                      clear = λ j a c.
                          r.1 j (omega (arith, r.0, m.behind)) (omega (arith, r.0, m.behind));
                      blocked = λ s h. m.blocked s (omega arith);
                    }))
            ]
      ])

-- The loop from the first bit on finds the first run of `n` clear bits, if there is one.
pub find_run_start :
    (ws : List ℕ) (n bits : ℕ) → 0 < n → FindsRun ws n bits (find_run ws n bits 0 0 0)
find_run_start ws n bits h =
    let same : bits + 0 ≡ bits = omega arith in
    subst (λ b. FindsRun ws n b (find_run ws n bits 0 0 0)) same
      (find_run-FindsRun ws n bits 0 0 0 (record {
        short = h;
        behind = omega arith;
        begins = λ l. absurd (omega arith);
        clear = λ j a c. absurd (omega arith);
        blocked = λ s l. absurd (omega arith);
      }))
