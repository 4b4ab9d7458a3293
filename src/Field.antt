-- ===== src/Field.antt =====
-- The bit-field helpers of src/frontend/instruction.rs: `slice`, `slice_back`, the register and
-- function fields, and the immediates of the 32-bit formats.
pub mod Compressed
pub mod Laws
use Prim.Native.Nat.{bit_and, bit_or}
use double_jit_vm.Prelude.{ℕ, ◌+◌, ◌-◌, ◌^◌, Bool, not, ◌==◌}
use double_jit_vm.Word.{shl32, shr32, sar32}

unfoldable pub slice : ℕ → ℕ → ℕ → ℕ → ℕ
slice bit lo len s = shl32 (bit_and (shr32 bit lo) (2 ^ len - 1)) s

unfoldable pub slice_back : ℕ → ℕ → ℕ → ℕ → ℕ
slice_back bit lo len s = shl32 (sar32 (shl32 bit (32 - lo - len)) (32 - len)) s

unfoldable pub funct2 : ℕ → ℕ
funct2 bit = slice bit 25 2 0

unfoldable pub funct3 : ℕ → ℕ
funct3 bit = slice bit 12 3 0

unfoldable pub funct5 : ℕ → ℕ
funct5 bit = slice bit 27 5 0

unfoldable pub funct7 : ℕ → ℕ
funct7 bit = slice bit 25 7 0

unfoldable pub aq : ℕ → Bool
aq bit = not (slice bit 26 1 0 == 0)

unfoldable pub rl : ℕ → Bool
rl bit = not (slice bit 25 1 0 == 0)

unfoldable pub rd : ℕ → ℕ
rd bit = slice bit 7 5 0

unfoldable pub rs1 : ℕ → ℕ
rs1 bit = slice bit 15 5 0

unfoldable pub rs2 : ℕ → ℕ
rs2 bit = slice bit 20 5 0

unfoldable pub rs3 : ℕ → ℕ
rs3 bit = slice bit 27 5 0

unfoldable pub shamt : ℕ → ℕ
shamt bit = slice bit 20 5 0

unfoldable pub btype_immediate : ℕ → ℕ
btype_immediate bit =
    bit_or (bit_or (bit_or (slice bit 8 4 1) (slice bit 25 6 5)) (slice bit 7 1 11))
      (slice_back bit 31 1 12)

unfoldable pub jtype_immediate : ℕ → ℕ
jtype_immediate bit =
    bit_or (bit_or (bit_or (slice bit 21 10 1) (slice bit 20 1 11)) (slice bit 12 8 12))
      (slice_back bit 31 1 20)

unfoldable pub itype_immediate : ℕ → ℕ
itype_immediate bit = slice_back bit 20 12 0

unfoldable pub stype_immediate : ℕ → ℕ
stype_immediate bit = bit_or (slice bit 7 5 0) (slice_back bit 25 7 5)

unfoldable pub utype_immediate : ℕ → ℕ
utype_immediate bit = slice_back bit 12 20 12
