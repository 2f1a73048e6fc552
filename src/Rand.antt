-- ===== src/Rand.antt =====
-- The generator xoshiro256** of src/crates/athera-rand: `XoShiro256StarStar` and `splitmix64`, on
-- words of 64 bits. `ChaChaRng` only calls the package `rand_chacha` and is not modelled.
pub mod Nonzero
pub mod Bytes
pub mod Linear
mod Tests
use Prim.Native.Nat.{bit_and, bit_xor}
use athera.Prelude.{
  ℕ, zero, suc, ◌+◌, ◌-◌, ◌*◌, ◌/◌, ◌%◌, ◌^◌, min, not, List, [], ◌∷◌, ◌++◌, take, ◌==◌,
  if◌then◌else◌,
}

-- `wrapping_add` and `wrapping_mul`.
abbrev pub wrapping_add : ℕ → ℕ → ℕ
wrapping_add a b = (a + b) % 2 ^ 64

abbrev pub wrapping_mul : ℕ → ℕ → ℕ
wrapping_mul a b = a * b % 2 ^ 64

-- `rotate_left`: the high bits come back at the low end.
unfoldable pub rotate_left : ℕ → ℕ → ℕ
rotate_left x k = x * 2 ^ k % 2 ^ 64 + x / 2 ^ (64 - k)

pub record XoShiro256StarStar : Type 0 where
  pub s0 : ℕ
  pub s1 : ℕ
  pub s2 : ℕ
  pub s3 : ℕ

abbrev pub new : XoShiro256StarStar
new = record { s0 = 0; s1 = 0; s2 = 0; s3 = 0 }

-- `splitmix64`: the next state, and the answer.
unfoldable pub mix : ℕ → ℕ
mix state =
    let z = wrapping_mul (bit_xor state (state / 2 ^ 30)) 13787848793156543929 in
    let y = wrapping_mul (bit_xor z (z / 2 ^ 27)) 10723151780598845931 in bit_xor y (y / 2 ^ 31)

unfoldable pub splitmix64 : ℕ → ℕ × ℕ
splitmix64 state = let next = wrapping_add state 11400714819323198485 in (next, mix next)

unfoldable pub seed : ℕ → XoShiro256StarStar
seed n =
    let a = splitmix64 n in
    let b = splitmix64 (a.0) in
    let c = splitmix64 (b.0) in
    let d = splitmix64 (c.0) in record { s0 = a.1; s1 = b.1; s2 = c.1; s3 = d.1 }

-- `step`: the state after it, and its answer.
unfoldable pub advance : XoShiro256StarStar → XoShiro256StarStar
advance s =
    let t = s.s1 * 2 ^ 17 % 2 ^ 64 in
    let s2 = bit_xor s.s2 s.s0 in
    let s3 = bit_xor s.s3 s.s1 in
    record { s0 = bit_xor s.s0 s3; s1 = bit_xor s.s1 s2; s2 = bit_xor s2 t; s3 = rotate_left s3 45 }

unfoldable pub output : XoShiro256StarStar → ℕ
output s = wrapping_mul (rotate_left (wrapping_mul s.s1 5) 7) 9

unfoldable pub step : XoShiro256StarStar → XoShiro256StarStar × ℕ
step s = (advance s, output s)

-- The state after `n` steps.
unfoldable pub after : ℕ → XoShiro256StarStar → XoShiro256StarStar
after zero s = s
after (suc n) s = after n ((step s).0)

unfoldable pub next_u64 : XoShiro256StarStar → XoShiro256StarStar × ℕ
next_u64 s = step s

unfoldable pub next_u32 : XoShiro256StarStar → XoShiro256StarStar × ℕ
next_u32 s = ((step s).0, (step s).1 / 2 ^ 32)

-- `to_le_bytes` of `n` bytes.
unfoldable pub to_le_bytes : ℕ → ℕ → List ℕ
to_le_bytes zero x = []
to_le_bytes (suc n) x = x % 256 ∷ to_le_bytes n (x / 256)

-- `fill_bytes` of `length` bytes, with `n` chunks to go.
unfoldable pub fill_chunks : ℕ → XoShiro256StarStar → ℕ → XoShiro256StarStar × List ℕ
fill_chunks zero s length = (s, [])
fill_chunks (suc n) s length =
    let bytes = take (min 8 length) (to_le_bytes 8 ((step s).1)) in
    let rest = fill_chunks n ((step s).0) (length - 8) in (rest.0, bytes ++ rest.1)

unfoldable pub fill_bytes : XoShiro256StarStar → ℕ → XoShiro256StarStar × List ℕ
fill_bytes s length = fill_chunks ((length + 7) / 8) s length

-- What `jump_with` adds to its sums at a bit that is set.
unfoldable pub add_state : XoShiro256StarStar → XoShiro256StarStar → XoShiro256StarStar
add_state sum s = record {
  s0 = bit_xor sum.s0 s.s0;
  s1 = bit_xor sum.s1 s.s1;
  s2 = bit_xor sum.s2 s.s2;
  s3 = bit_xor sum.s3 s.s3;
}

-- The inner loop of `jump_with`, from bit `b` on with `n` bits to go: the sums and the state.
unfoldable pub jump_bits :
    ℕ → ℕ → ℕ → XoShiro256StarStar → XoShiro256StarStar → XoShiro256StarStar × XoShiro256StarStar
jump_bits item b zero sum s = (sum, s)
jump_bits item b (suc n) sum s =
    let next = (step s).0 in
    jump_bits item (b + 1) n (if not (bit_and item (2 ^ b) == 0) then add_state sum s else sum) next

unfoldable pub jump_items :
    List ℕ → XoShiro256StarStar → XoShiro256StarStar → XoShiro256StarStar × XoShiro256StarStar
jump_items [] sum s = (sum, s)
jump_items (item ∷ items) sum s = let r = jump_bits item 0 64 sum s in jump_items items (r.0) (r.1)

unfoldable pub jump_with : List ℕ → XoShiro256StarStar → XoShiro256StarStar
jump_with jump s = (jump_items jump new s).0

abbrev pub jump_words : List ℕ
jump_words =
    1733541517147835066 ∷ 15395012609548302636 ∷ 12202545078643706282 ∷ 4155657270789760540 ∷ []

unfoldable pub jump : XoShiro256StarStar → XoShiro256StarStar
jump s = jump_with jump_words s

abbrev pub long_jump_words : List ℕ
long_jump_words =
    8566230491382795199 ∷ 14195432079911694259 ∷ 8606660816089834049 ∷ 4111957640723818037 ∷ []

unfoldable pub long_jump : XoShiro256StarStar → XoShiro256StarStar
long_jump s = jump_with long_jump_words s
