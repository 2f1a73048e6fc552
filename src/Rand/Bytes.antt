-- ===== src/Rand/Bytes.antt =====
-- The bytes that `fill_bytes` of src/crates/athera-rand writes, against the successive outputs.
use athera.Prelude.{
  ℕ, zero, suc, ◌+◌, ◌-◌, ◌*◌, ◌/◌, ◌%◌, ◌^◌, ◌<◌, ◌≤◌, ◌≡◌, refl, ap, ◌∙◌, arith, min, List, ◌++◌,
  take, length, get_elem?, length-append, length-take, get_elem?-take, get_elem?-left,
  get_elem?-right, dec_lt, some,
}
use native.Mathlib.Nat.{div-div-eq-div-mul}
use athera.Rand.{
  XoShiro256StarStar, advance, output, step, after, to_le_bytes, fill_chunks, fill_bytes,
}

-- What `fill_bytes` owes for `n` bytes: it takes a step for every eight bytes begun, it answers
-- `n` bytes, and byte `i` is byte `i % 8` from the low end of output `i / 8`.
pub record Fills (s : XoShiro256StarStar) (n : ℕ) (r : XoShiro256StarStar × List ℕ) : Type 0 where
  state : r.0 ≡ after ((n + 7) / 8) s
  size : length (r.1) ≡ n
  bytes :
      (i : ℕ) → i < n → get_elem? (r.1) i ≡ some (output (after (i / 8) s) / 256 ^ (i % 8) % 256)

length-to_le_bytes : (n x : ℕ) → length (to_le_bytes n x) ≡ n
unfolding to_le_bytes
length-to_le_bytes zero x = refl
length-to_le_bytes (suc n) x = ap suc (length-to_le_bytes n (x / 256))

get_elem?-to_le_bytes :
    (n x i : ℕ) → i < n → get_elem? (to_le_bytes n x) i ≡ some (x / 256 ^ i % 256)
unfolding to_le_bytes
get_elem?-to_le_bytes zero x i p = absurd (omega arith)
get_elem?-to_le_bytes (suc n) x zero p = ap some (omega arith)
get_elem?-to_le_bytes (suc n) x (suc i) p =
    let power : 256 ^ suc i ≡ 256 * 256 ^ i = omega arith in
    get_elem?-to_le_bytes n (x / 256) i (omega arith)
    ∙ rw (power, div-div-eq-div-mul x 256 (256 ^ i)) refl

-- One chunk of `m` bytes at most eight.
length-chunk : (m x : ℕ) → m ≤ 8 → length (take m (to_le_bytes 8 x)) ≡ m
length-chunk m x p = omega (arith, length-take m (to_le_bytes 8 x), length-to_le_bytes 8 x)

get_elem?-chunk :
    (m x i : ℕ) → m ≤ 8 → i < m → get_elem? (take m (to_le_bytes 8 x)) i ≡ some (x / 256 ^ i % 256)
get_elem?-chunk m x i p q =
    get_elem?-take m (to_le_bytes 8 x) i q ∙ get_elem?-to_le_bytes 8 x i (omega arith)

-- Byte `i` of a fill whose first chunk is that of the output of `s`.
chunk_bytes :
    (s : XoShiro256StarStar) (m : ℕ) (rest : XoShiro256StarStar × List ℕ)
    → Fills (advance s) (m - 8) rest
    → (i : ℕ) → i < m
    → get_elem? (take (min 8 m) (to_le_bytes 8 (output s)) ++ rest.1) i
      ≡ some (output (after (i / 8) s) / 256 ^ (i % 8) % 256)
unfolding after step
chunk_bytes s m rest f i p =
    let c = take (min 8 m) (to_le_bytes 8 (output s)) in
    let size = length-chunk (min 8 m) (output s) (omega arith) in
    elim (dec_lt i 8) [
      | yes q ↦
          let block : i / 8 ≡ 0 = omega arith in
          let place : i % 8 ≡ i = omega arith in
          get_elem?-left c (rest.1) i (omega (arith, size))
          ∙ get_elem?-chunk (min 8 m) (output s) i (omega arith) (omega arith)
          ∙ rw (block, place) refl
      | no q ↦
          let block : i / 8 ≡ suc ((i - 8) / 8) = omega arith in
          let place : i % 8 ≡ (i - 8) % 8 = omega arith in
          let here : i - length c ≡ i - 8 = omega (arith, size) in
          get_elem?-right c (rest.1) i (omega (arith, size))
          ∙ ap (get_elem? (rest.1)) here
          ∙ f.bytes (i - 8) (omega arith)
          ∙ rw (block, place) refl
    ]

fill_chunks-Fills :
    (n : ℕ) (s : XoShiro256StarStar) (m : ℕ) → (m + 7) / 8 ≡ n → Fills s m (fill_chunks n s m)
unfolding fill_chunks step after
fill_chunks-Fills zero s m e = record {
  state = rw e refl;
  size = omega arith;
  bytes = λ i p. absurd (omega arith);
}
fill_chunks-Fills (suc n) s m e =
    let left : (m - 8 + 7) / 8 ≡ n = omega arith in
    let f = fill_chunks-Fills n (advance s) (m - 8) left in
    let c = take (min 8 m) (to_le_bytes 8 (output s)) in
    let r = fill_chunks n (advance s) (m - 8) in
    let size = length-chunk (min 8 m) (output s) (omega arith) in
    record {
      state = f.state ∙ rw (e, left) refl;
      size = omega (arith, length-append c (r.1), size, f.size);
      bytes = chunk_bytes s m r f;
    }

-- For every state `s` and length `n`, `fill_bytes` takes one step for every eight bytes begun and
-- answers exactly `n` bytes; byte `i` of them is byte `i % 8`, counted from the low end, of the
-- output number `i / 8` of `s`.
pub fill_bytes-Fills : (s : XoShiro256StarStar) (n : ℕ) → Fills s n (fill_bytes s n)
unfolding fill_bytes
fill_bytes-Fills s n = fill_chunks-Fills ((n + 7) / 8) s n refl
