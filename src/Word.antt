-- ===== src/Word.antt =====
-- Machine words of src/frontend/instruction.rs: a `u32` is a number below 2 ^ 32, an `i32` is its
-- bit pattern. Shift amounts in the program are constants below 32, so no shift panics.
use double_jit_vm.Prelude.{ℕ, ◌+◌, ◌-◌, ◌*◌, ◌/◌, ◌%◌, ◌^◌, ltb, if◌then◌else◌}

-- `x << s` on `u32` and on `i32`: the bits above 31 are lost.
abbrev pub shl32 : ℕ → ℕ → ℕ
shl32 x s = x * 2 ^ s % 2 ^ 32

-- `x >> s` on `u32`.
abbrev pub shr32 : ℕ → ℕ → ℕ
shr32 x s = x / 2 ^ s

-- `x >> s` on `i32`: the sign bit is copied in from above.
abbrev pub sar32 : ℕ → ℕ → ℕ
sar32 x s = if ltb x (2 ^ 31) then x / 2 ^ s else x / 2 ^ s + (2 ^ 32 - 2 ^ (32 - s))

-- The field of `len` bits from bit `lo` on.
abbrev pub bits_at : ℕ → ℕ → ℕ → ℕ
bits_at x lo len = x / 2 ^ lo % 2 ^ len

-- A two's complement number of `n` bits, widened to the bit pattern of an `i32`.
abbrev pub sign_extend : ℕ → ℕ → ℕ
sign_extend n v = if ltb v (2 ^ (n - 1)) then v else v + (2 ^ 32 - 2 ^ n)
