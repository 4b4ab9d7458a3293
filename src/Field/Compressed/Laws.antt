-- ===== src/Field/Compressed/Laws.antt =====
-- The fields of the 16-bit formats in plain arithmetic, and what the masks of the compressed decoder
-- keep. Bits 16 to 31 of the word, which belong to the next instruction, play no part.
use Prim.Native.Nat.{bit_and, bit_or}
use double_jit_vm.Prelude.{ℕ, ◌+◌, ◌-◌, ◌*◌, ◌/◌, ◌%◌, ◌^◌, ◌≡◌, arith}
use double_jit_vm.Word.{bits_at, sign_extend}
use double_jit_vm.Bits.{bit_and-low_mask, bit_and-field_mask, bit_and-split, bit_or-fields}
use double_jit_vm.Field.{slice, slice_back}
use double_jit_vm.Field.Laws.{slice_lem}
use double_jit_vm.Field.Compressed.{
  c_r, c_rs2, c_immediate, c_uimmediate, c_j_immediate, c_fld_uimmediate, c_sw_uimmediate,
  c_lwsp_uimmediate, c_fldsp_uimmediate, c_fsdsp_uimmediate, c_swsp_uimmediate, c_b_immediate,
}

pub c_r_lem : (bit least : ℕ) → c_r bit least ≡ bits_at bit least 3 + 8
unfolding c_r
c_r_lem bit least = omega (arith, slice_lem bit least 3 0)

-- The sign bit of a compressed immediate, copied into every bit from `s` on.
pub slice_back-sign :
    (bit s : ℕ) → slice_back bit 12 1 s ≡ bits_at bit 12 1 * (2 ^ 32 - 1) * 2 ^ s % 2 ^ 32
unfolding slice_back
slice_back-sign bit s = ground arith

pub c_rs2_lem : (bit : ℕ) → c_rs2 bit ≡ bits_at bit 2 5
unfolding c_rs2
c_rs2_lem bit = ground (arith, slice_lem bit 2 5 0)

pub c_immediate_lem :
    (bit : ℕ) → c_immediate bit ≡ sign_extend 6 (bits_at bit 2 5 + bits_at bit 12 1 * 2 ^ 5)
unfolding c_immediate
c_immediate_lem bit = ground (
  arith,
  slice_lem bit 2 5 0,
  slice_back-sign bit 5,
  bit_or-fields 5 (bits_at bit 2 5) (bits_at bit 12 1 * (2 ^ 27 - 1)),
)

pub c_uimmediate_lem : (bit : ℕ) → c_uimmediate bit ≡ bits_at bit 2 5 + bits_at bit 12 1 * 2 ^ 5
unfolding c_uimmediate
c_uimmediate_lem bit = ground (
  arith,
  slice_lem bit 2 5 0,
  slice_lem bit 12 1 5,
  bit_or-fields 5 (bits_at bit 2 5) (bits_at bit 12 1),
)

pub c_j_immediate_lem :
    (bit : ℕ)
    → c_j_immediate bit
      ≡ sign_extend 12 (
          bits_at bit 3 3 * 2 ^ 1
          + bits_at bit 11 1 * 2 ^ 4
          + bits_at bit 2 1 * 2 ^ 5
          + bits_at bit 7 1 * 2 ^ 6
          + bits_at bit 6 1 * 2 ^ 7
          + bits_at bit 9 2 * 2 ^ 8
          + bits_at bit 8 1 * 2 ^ 10
          + bits_at bit 12 1 * 2 ^ 11)
unfolding c_j_immediate
c_j_immediate_lem bit = ground (
  arith,
  slice_lem bit 3 3 1,
  slice_lem bit 11 1 4,
  slice_lem bit 2 1 5,
  slice_lem bit 7 1 6,
  slice_lem bit 6 1 7,
  slice_lem bit 9 2 8,
  slice_lem bit 8 1 10,
  bit_or-fields 4 (bits_at bit 3 3 * 2 ^ 1) (bits_at bit 11 1),
  bit_or-fields 5 (bits_at bit 3 3 * 2 ^ 1 + bits_at bit 11 1 * 2 ^ 4) (bits_at bit 2 1),
  bit_or-fields 6 (bits_at bit 3 3 * 2 ^ 1 + bits_at bit 11 1 * 2 ^ 4 + bits_at bit 2 1 * 2 ^ 5)
      (bits_at bit 7 1),
  bit_or-fields 7
      (bits_at bit 3 3 * 2 ^ 1
        + bits_at bit 11 1 * 2 ^ 4
        + bits_at bit 2 1 * 2 ^ 5
        + bits_at bit 7 1 * 2 ^ 6)
      (bits_at bit 6 1),
  bit_or-fields 8
      (bits_at bit 3 3 * 2 ^ 1
        + bits_at bit 11 1 * 2 ^ 4
        + bits_at bit 2 1 * 2 ^ 5
        + bits_at bit 7 1 * 2 ^ 6
        + bits_at bit 6 1 * 2 ^ 7)
      (bits_at bit 9 2),
  bit_or-fields 10
      (bits_at bit 3 3 * 2 ^ 1
        + bits_at bit 11 1 * 2 ^ 4
        + bits_at bit 2 1 * 2 ^ 5
        + bits_at bit 7 1 * 2 ^ 6
        + bits_at bit 6 1 * 2 ^ 7
        + bits_at bit 9 2 * 2 ^ 8)
      (bits_at bit 8 1),
  slice_back-sign bit 11,
  bit_or-fields 11
      (bits_at bit 3 3 * 2 ^ 1
        + bits_at bit 11 1 * 2 ^ 4
        + bits_at bit 2 1 * 2 ^ 5
        + bits_at bit 7 1 * 2 ^ 6
        + bits_at bit 6 1 * 2 ^ 7
        + bits_at bit 9 2 * 2 ^ 8
        + bits_at bit 8 1 * 2 ^ 10)
      (bits_at bit 12 1 * (2 ^ 21 - 1)),
)

pub c_fld_uimmediate_lem :
    (bit : ℕ) → c_fld_uimmediate bit ≡ bits_at bit 10 3 * 2 ^ 3 + bits_at bit 5 2 * 2 ^ 6
unfolding c_fld_uimmediate
c_fld_uimmediate_lem bit = ground (
  arith,
  slice_lem bit 10 3 3,
  slice_lem bit 5 2 6,
  bit_or-fields 6 (bits_at bit 10 3 * 2 ^ 3) (bits_at bit 5 2),
)

pub c_sw_uimmediate_lem :
    (bit : ℕ)
    → c_sw_uimmediate bit
      ≡ bits_at bit 6 1 * 2 ^ 2 + bits_at bit 10 3 * 2 ^ 3 + bits_at bit 5 1 * 2 ^ 6
unfolding c_sw_uimmediate
c_sw_uimmediate_lem bit = ground (
  arith,
  slice_lem bit 6 1 2,
  slice_lem bit 10 3 3,
  slice_lem bit 5 1 6,
  bit_or-fields 3 (bits_at bit 6 1 * 2 ^ 2) (bits_at bit 10 3),
  bit_or-fields 6 (bits_at bit 6 1 * 2 ^ 2 + bits_at bit 10 3 * 2 ^ 3) (bits_at bit 5 1),
)

pub c_lwsp_uimmediate_lem :
    (bit : ℕ)
    → c_lwsp_uimmediate bit
      ≡ bits_at bit 4 3 * 2 ^ 2 + bits_at bit 12 1 * 2 ^ 5 + bits_at bit 2 2 * 2 ^ 6
unfolding c_lwsp_uimmediate
c_lwsp_uimmediate_lem bit = ground (
  arith,
  slice_lem bit 4 3 2,
  slice_lem bit 12 1 5,
  slice_lem bit 2 2 6,
  bit_or-fields 5 (bits_at bit 4 3 * 2 ^ 2) (bits_at bit 12 1),
  bit_or-fields 6 (bits_at bit 4 3 * 2 ^ 2 + bits_at bit 12 1 * 2 ^ 5) (bits_at bit 2 2),
)

pub c_fldsp_uimmediate_lem :
    (bit : ℕ)
    → c_fldsp_uimmediate bit
      ≡ bits_at bit 5 2 * 2 ^ 3 + bits_at bit 12 1 * 2 ^ 5 + bits_at bit 2 3 * 2 ^ 6
unfolding c_fldsp_uimmediate
c_fldsp_uimmediate_lem bit = ground (
  arith,
  slice_lem bit 5 2 3,
  slice_lem bit 12 1 5,
  slice_lem bit 2 3 6,
  bit_or-fields 5 (bits_at bit 5 2 * 2 ^ 3) (bits_at bit 12 1),
  bit_or-fields 6 (bits_at bit 5 2 * 2 ^ 3 + bits_at bit 12 1 * 2 ^ 5) (bits_at bit 2 3),
)

pub c_fsdsp_uimmediate_lem :
    (bit : ℕ) → c_fsdsp_uimmediate bit ≡ bits_at bit 10 3 * 2 ^ 3 + bits_at bit 7 3 * 2 ^ 6
unfolding c_fsdsp_uimmediate
c_fsdsp_uimmediate_lem bit = ground (
  arith,
  slice_lem bit 10 3 3,
  slice_lem bit 7 3 6,
  bit_or-fields 6 (bits_at bit 10 3 * 2 ^ 3) (bits_at bit 7 3),
)

pub c_swsp_uimmediate_lem :
    (bit : ℕ) → c_swsp_uimmediate bit ≡ bits_at bit 9 4 * 2 ^ 2 + bits_at bit 7 2 * 2 ^ 6
unfolding c_swsp_uimmediate
c_swsp_uimmediate_lem bit = ground (
  arith,
  slice_lem bit 9 4 2,
  slice_lem bit 7 2 6,
  bit_or-fields 6 (bits_at bit 9 4 * 2 ^ 2) (bits_at bit 7 2),
)

pub c_b_immediate_lem :
    (bit : ℕ)
    → c_b_immediate bit
      ≡ sign_extend 9 (
          bits_at bit 3 2 * 2 ^ 1
          + bits_at bit 10 2 * 2 ^ 3
          + bits_at bit 2 1 * 2 ^ 5
          + bits_at bit 5 2 * 2 ^ 6
          + bits_at bit 12 1 * 2 ^ 8)
unfolding c_b_immediate
c_b_immediate_lem bit = ground (
  arith,
  slice_lem bit 3 2 1,
  slice_lem bit 10 2 3,
  slice_lem bit 2 1 5,
  slice_lem bit 5 2 6,
  bit_or-fields 3 (bits_at bit 3 2 * 2 ^ 1) (bits_at bit 10 2),
  bit_or-fields 5 (bits_at bit 3 2 * 2 ^ 1 + bits_at bit 10 2 * 2 ^ 3) (bits_at bit 2 1),
  bit_or-fields 6 (bits_at bit 3 2 * 2 ^ 1 + bits_at bit 10 2 * 2 ^ 3 + bits_at bit 2 1 * 2 ^ 5)
      (bits_at bit 5 2),
  slice_back-sign bit 8,
  bit_or-fields 8
      (bits_at bit 3 2 * 2 ^ 1
        + bits_at bit 10 2 * 2 ^ 3
        + bits_at bit 2 1 * 2 ^ 5
        + bits_at bit 5 2 * 2 ^ 6)
      (bits_at bit 12 1 * (2 ^ 24 - 1)),
)

pub nzuimm_lem :
    (bit : ℕ)
    → bit_or
        (bit_or (bit_or (slice bit 6 1 2) (slice bit 5 1 3)) (slice bit 11 2 4))
        (slice bit 7 4 6)
      ≡ bits_at bit 6 1 * 2 ^ 2
        + bits_at bit 5 1 * 2 ^ 3
        + bits_at bit 11 2 * 2 ^ 4
        + bits_at bit 7 4 * 2 ^ 6
nzuimm_lem bit = ground (
  arith,
  slice_lem bit 6 1 2,
  slice_lem bit 5 1 3,
  slice_lem bit 11 2 4,
  slice_lem bit 7 4 6,
  bit_or-fields 3 (bits_at bit 6 1 * 2 ^ 2) (bits_at bit 5 1),
  bit_or-fields 4 (bits_at bit 6 1 * 2 ^ 2 + bits_at bit 5 1 * 2 ^ 3) (bits_at bit 11 2),
  bit_or-fields 6 (bits_at bit 6 1 * 2 ^ 2 + bits_at bit 5 1 * 2 ^ 3 + bits_at bit 11 2 * 2 ^ 4)
      (bits_at bit 7 4),
)

pub addi16sp_immediate_lem :
    (bit : ℕ)
    → bit_or
        (bit_or
          (bit_or (bit_or (slice bit 6 1 4) (slice bit 2 1 5)) (slice bit 5 1 6))
          (slice bit 3 2 7))
        (slice_back bit 12 1 9)
      ≡ sign_extend 10 (
          bits_at bit 6 1 * 2 ^ 4
          + bits_at bit 2 1 * 2 ^ 5
          + bits_at bit 5 1 * 2 ^ 6
          + bits_at bit 3 2 * 2 ^ 7
          + bits_at bit 12 1 * 2 ^ 9)
addi16sp_immediate_lem bit = ground (
  arith,
  slice_lem bit 6 1 4,
  slice_lem bit 2 1 5,
  slice_lem bit 5 1 6,
  slice_lem bit 3 2 7,
  bit_or-fields 5 (bits_at bit 6 1 * 2 ^ 4) (bits_at bit 2 1),
  bit_or-fields 6 (bits_at bit 6 1 * 2 ^ 4 + bits_at bit 2 1 * 2 ^ 5) (bits_at bit 5 1),
  bit_or-fields 7 (bits_at bit 6 1 * 2 ^ 4 + bits_at bit 2 1 * 2 ^ 5 + bits_at bit 5 1 * 2 ^ 6)
      (bits_at bit 3 2),
  slice_back-sign bit 9,
  bit_or-fields 9
      (bits_at bit 6 1 * 2 ^ 4
        + bits_at bit 2 1 * 2 ^ 5
        + bits_at bit 5 1 * 2 ^ 6
        + bits_at bit 3 2 * 2 ^ 7)
      (bits_at bit 12 1 * (2 ^ 23 - 1)),
)

-- The key of the decoder: `funct3` and the quadrant.
pub key_lem : (bit : ℕ) → bit_and bit 0b111_00000000000_11 ≡ bits_at bit 13 3 * 2 ^ 13 + bit % 4
key_lem bit = omega (
  arith,
  bit_and-split 13 bit 3 7 (omega arith),
  bit_and-low_mask 2 bit,
  bit_and-low_mask 3 (bit / 2 ^ 13),
)

pub misc_alu_key_lem :
    (bit : ℕ)
    → bit_and bit 0b1_11_000_11000_00 ≡ bits_at bit 5 2 * 2 ^ 5 + bits_at bit 10 3 * 2 ^ 10
misc_alu_key_lem bit = omega (
  arith,
  bit_and-split 10 bit 0b11000_00 7 (omega arith),
  bit_and-field_mask 5 2 bit,
  bit_and-low_mask 3 (bit / 2 ^ 10),
)

pub shift_key_lem : (bit : ℕ) → bit_and bit 0b11_000_00000_00 ≡ bits_at bit 10 2 * 2 ^ 10
shift_key_lem bit = bit_and-field_mask 10 2 bit

pub shift_low_key_lem : (bit : ℕ) → bit_and bit 0b111_00 ≡ bits_at bit 2 3 * 2 ^ 2
shift_low_key_lem bit = bit_and-field_mask 2 3 bit

pub jr_key_lem : (bit : ℕ) → bit_and bit 0b1_00000_00000_00 ≡ bits_at bit 12 1 * 2 ^ 12
jr_key_lem bit = bit_and-field_mask 12 1 bit
