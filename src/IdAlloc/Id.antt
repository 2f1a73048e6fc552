-- ===== src/IdAlloc/Id.antt =====
-- The trait `Id` as `impl_id_for_uint!` implements it for an unsigned integer of `w` bits, the
-- masks and the errors of crates/athera-id-alloc/src/lib.rs.
use athera.Prelude.{ℕ, ◌+◌, ◌-◌, ◌%◌, ◌^◌, Option, none, some, if◌then◌else◌, ◌==◌, leb}

pub data IdAllocError : Type 0 where
  out_of_range already_allocated already_free empty_range range_busy not_aligned major_not_found :
      IdAllocError

-- `T::MAX`.
abbrev pub id_max : ℕ → ℕ
id_max w = 2 ^ w - 1

-- `checked_add(1)`.
unfoldable pub next : ℕ → ℕ → Option ℕ
next w n = if n == id_max w then none else some (n + 1)

-- `checked_sub(1)`.
unfoldable pub prev : ℕ → Option ℕ
prev n = if n == 0 then none else some (n - 1)

-- `(other - self) as usize`, for `self ≤ other`.
abbrev pub distance_to : ℕ → ℕ → ℕ
distance_to a b = b - a

-- `bits as $t`.
abbrev pub from_bits : ℕ → ℕ → ℕ
from_bits w bits = bits % 2 ^ w

-- The masks are `u128`.
unfoldable pub low_mask : ℕ → ℕ
low_mask n = if n == 0 then 0 else if leb 128 n then 2 ^ 128 - 1 else 2 ^ n - 1

unfoldable pub block_size : ℕ → ℕ
block_size n = if n == 0 then 1 else if leb 128 n then 0 else 2 ^ n

abbrev pub wrapping_add : ℕ → ℕ → ℕ
wrapping_add a b = (a + b) % 2 ^ 128
