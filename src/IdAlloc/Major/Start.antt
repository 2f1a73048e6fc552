-- ===== src/IdAlloc/Major/Start.antt =====
-- `from_range`, `init` and `reset`: the states that an allocator starts from.
use athera.Prelude.{
  ℕ, ◌%◌, ◌^◌, ◌≤◌, ◌<◌, ◌≡◌, ◌≢◌, refl, sym, true, false, ltb, leb, ◌==◌, arith, inl, inr,
  Bool-cases, ℕ_discrete, dec_lt,
}
use athera.Prelude.Result.{Result, ok, err, Result-cases}
use athera.Prelude.Count.{count_none}
use athera.Prelude.BTreeMap.{empty, get, insert}
use athera.IdAlloc.Id.{IdAllocError, id_max, out_of_range, not_aligned}
use athera.IdAlloc.Ranges.Spec.{is_free, IsRanges}
use athera.IdAlloc.Flat
use athera.IdAlloc.Flat.Valid
use athera.IdAlloc.Flat.Blocks.{within}
use athera.IdAlloc.Major.{IdAlloc, from_range, validate_range, init, reset, used, sum_used}
use athera.IdAlloc.Major.Blocks.{aligned_test}
use athera.IdAlloc.Major.Valid.{owned, IsValid, vacant}

-- Everything in `[start, end)` is vacant, there is no major, and nothing is used.
pub record IsFresh (w n start end : ℕ) (a : IdAlloc) : Type 0 where
  pub valid : IsValid w n a
  pub first : a.flat.start ≡ start
  pub last : a.flat.end ≡ end
  pub total : used a ≡ 0
  pub vacancy : (i : ℕ) → vacant n a i ≡ within start end i
  pub majors : (i : ℕ) → owned n a.majors i ≡ false

abbrev fresh : ℕ → ℕ → IdAlloc
fresh start end = record { flat = Flat.new start end; majors = empty }

is_free-new : (start end i : ℕ) → is_free i (Flat.new start end).ranges ≡ within start end i
unfolding Flat.new is_free insert
is_free-new start end i = ground arith

formed-new : (start end : ℕ) → IsRanges start end (Flat.new start end).ranges
unfolding Flat.new insert
formed-new start end = elim (Bool-cases (ltb start end)) [
  | inl h ↦ rw h (omega arith, ground arith, omega arith, tt)
  | inr h ↦ rw h tt
]

fresh-IsFresh : (w n start end : ℕ) → end ≤ id_max w → IsFresh w n start end (fresh start end)
unfolding Flat.new get used vacant sum_used
fresh-IsFresh w n start end k = record {
  valid = record {
    flat = record {
      fits = k;
      formed = formed-new start end;
      counted = sym (
          count_none (Valid.is_used (owned n empty) start (Flat.new start end).ranges) end
            (λ i l. ground (arith, is_free-new start end i)));
      apart = λ i r. ground arith;
    };
    ordered = tt;
    slots = λ b s e. absurd (ground arith);
  };
  first = refl;
  last = refl;
  total = refl;
  vacancy = is_free-new start end;
  majors = λ i. refl;
}

-- The answers of `from_range`.
pub data FromRange (w n start end : ℕ) : Result IdAlloc IdAllocError → Type 0 where
  wide : w ≤ n → FromRange w n start end (err out_of_range)
  misaligned : n < w → start % 2 ^ n ≢ 0 → FromRange w n start end (err not_aligned)
  made :
      (a : IdAlloc)
      → n < w
      → start % 2 ^ n ≡ 0
      → IsFresh w n start end a
      → FromRange w n start end (ok a)

-- For IDs of `w < 127` bits and a range within them, `from_range` answers `OutOfRange` when `w ≤ n`
-- and `NotAligned` when the start is not a multiple of `2 ^ n`, and otherwise a valid allocator
-- without majors in which exactly the IDs of the range are vacant.
pub from_range-FromRange :
    (w n start end : ℕ)
    → w < 127
    → end ≤ id_max w
    → FromRange w n start end (from_range w n start end)
unfolding from_range
from_range-FromRange w n start end narrow k = elim (dec_lt n w) [
  | no h ↦ rw (wide_test (omega arith)) (wide (omega arith))
  | yes lt ↦ elim (ℕ_discrete (start % 2 ^ n) 0) [
    | no h ↦ rw (narrow_test lt, aligned_test w n lt narrow start, ne h) (misaligned lt h)
    | yes h ↦
        rw (narrow_test lt, aligned_test w n lt narrow start, h)
          (made (fresh start end) lt h (fresh-IsFresh w n start end k))
  ]
]
  where
    wide_test : w ≤ n → leb w n ≡ true
    wide_test h = ground arith

    narrow_test : n < w → leb w n ≡ false
    narrow_test h = ground arith

    ne : start % 2 ^ n ≢ 0 → (start % 2 ^ n == 0) ≡ false
    ne h = ground arith

-- `init` on a range within the IDs leaves a valid allocator: the one that it had, or a fresh one.
pub init-IsValid :
    (w n : ℕ) (a : IdAlloc) (start end : ℕ)
    → end ≤ id_max w
    → IsValid w n a
    → IsValid w n (init w n a start end).0
unfolding init Flat.reset Flat.new
init-IsValid w n a start end h v = elim (Result-cases (validate_range w n start)) [
  | inl (u, q) ↦ rw (q, init) (fresh-IsFresh w n start end h).valid
  | inr (e, q) ↦ rw (q, init) v
]

-- `reset` brings any state back to the fresh one over the same range.
pub reset-IsFresh :
    (w n : ℕ) (a : IdAlloc) → a.flat.end ≤ id_max w → IsFresh w n a.flat.start a.flat.end (reset a)
unfolding reset Flat.reset Flat.new
reset-IsFresh w n a h = fresh-IsFresh w n a.flat.start a.flat.end h
