-- ===== src/Field/Laws.antt =====
-- The fields and immediates in plain arithmetic: which bits of the word they are, and in which order.
use double_jit_vm.Prelude.{ℕ, ◌+◌, ◌-◌, ◌*◌, ◌/◌, ◌%◌, ◌^◌, ◌<◌, ◌≡◌, arith}
use double_jit_vm.Word.{bits_at, sign_extend}
use double_jit_vm.Bits.{bit_and-low_mask, bit_or-fields}
use double_jit_vm.Field.{
  slice, slice_back, funct2, funct3, funct5, funct7, rd, rs1, rs2, rs3, shamt, btype_immediate,
  jtype_immediate, itype_immediate, stype_immediate, utype_immediate,
}

pub slice_lem : (bit lo len s : ℕ) → slice bit lo len s ≡ bits_at bit lo len * 2 ^ s % 2 ^ 32
unfolding slice
slice_lem bit lo len s = rw (bit_and-low_mask len (bit / 2 ^ lo))

pub funct2_lem : (bit : ℕ) → funct2 bit ≡ bits_at bit 25 2
unfolding funct2
funct2_lem bit = omega (arith, slice_lem bit 25 2 0)

pub funct3_lem : (bit : ℕ) → funct3 bit ≡ bits_at bit 12 3
unfolding funct3
funct3_lem bit = omega (arith, slice_lem bit 12 3 0)

pub funct5_lem : (bit : ℕ) → funct5 bit ≡ bits_at bit 27 5
unfolding funct5
funct5_lem bit = omega (arith, slice_lem bit 27 5 0)

pub funct7_lem : (bit : ℕ) → funct7 bit ≡ bits_at bit 25 7
unfolding funct7
funct7_lem bit = omega (arith, slice_lem bit 25 7 0)

pub rd_lem : (bit : ℕ) → rd bit ≡ bits_at bit 7 5
unfolding rd
rd_lem bit = omega (arith, slice_lem bit 7 5 0)

pub rs1_lem : (bit : ℕ) → rs1 bit ≡ bits_at bit 15 5
unfolding rs1
rs1_lem bit = omega (arith, slice_lem bit 15 5 0)

pub rs2_lem : (bit : ℕ) → rs2 bit ≡ bits_at bit 20 5
unfolding rs2
rs2_lem bit = omega (arith, slice_lem bit 20 5 0)

pub rs3_lem : (bit : ℕ) → rs3 bit ≡ bits_at bit 27 5
unfolding rs3
rs3_lem bit = omega (arith, slice_lem bit 27 5 0)

pub shamt_lem : (bit : ℕ) → shamt bit ≡ bits_at bit 20 5
unfolding shamt
shamt_lem bit = omega (arith, slice_lem bit 20 5 0)

-- The signed immediates are the two's complement numbers of the bits that the formats scatter.
pub itype_immediate_lem :
    (bit : ℕ) → bit < 2 ^ 32 → itype_immediate bit ≡ sign_extend 12 (bits_at bit 20 12)
unfolding itype_immediate slice_back
itype_immediate_lem bit h = ground arith

abbrev pub stype_bits : ℕ → ℕ
stype_bits bit = bits_at bit 7 5 + bits_at bit 25 7 * 2 ^ 5

pub stype_immediate_lem :
    (bit : ℕ) → bit < 2 ^ 32 → stype_immediate bit ≡ sign_extend 12 (stype_bits bit)
unfolding stype_immediate slice_back
stype_immediate_lem bit h = ground (
  arith,
  slice_lem bit 7 5 0,
  bit_or-fields 5 (bits_at bit 7 5) (bits_at bit 25 7),
  bit_or-fields 5 (bits_at bit 7 5) (bits_at bit 25 7 + (2 ^ 27 - 2 ^ 7)),
)

abbrev pub btype_bits : ℕ → ℕ
btype_bits bit =
    bits_at bit 8 4 * 2
    + bits_at bit 25 6 * 2 ^ 5
    + bits_at bit 7 1 * 2 ^ 11
    + bits_at bit 31 1 * 2 ^ 12

pub btype_immediate_lem :
    (bit : ℕ) → bit < 2 ^ 32 → btype_immediate bit ≡ sign_extend 13 (btype_bits bit)
unfolding btype_immediate slice_back
btype_immediate_lem bit h =
    let low = bits_at bit 8 4 * 2 in
    let middle = low + bits_at bit 25 6 * 2 ^ 5 in
    ground (
      arith,
      slice_lem bit 8 4 1,
      slice_lem bit 25 6 5,
      slice_lem bit 7 1 11,
      bit_or-fields 5 low (bits_at bit 25 6),
      bit_or-fields 11 middle (bits_at bit 7 1),
      bit_or-fields 12 (middle + bits_at bit 7 1 * 2 ^ 11) (bits_at bit 31 1 * (2 ^ 20 - 1)),
    )

abbrev pub jtype_bits : ℕ → ℕ
jtype_bits bit =
    bits_at bit 21 10 * 2
    + bits_at bit 20 1 * 2 ^ 11
    + bits_at bit 12 8 * 2 ^ 12
    + bits_at bit 31 1 * 2 ^ 20

pub jtype_immediate_lem :
    (bit : ℕ) → bit < 2 ^ 32 → jtype_immediate bit ≡ sign_extend 21 (jtype_bits bit)
unfolding jtype_immediate slice_back
jtype_immediate_lem bit h =
    let low = bits_at bit 21 10 * 2 in
    let middle = low + bits_at bit 20 1 * 2 ^ 11 in
    ground (
      arith,
      slice_lem bit 21 10 1,
      slice_lem bit 20 1 11,
      slice_lem bit 12 8 12,
      bit_or-fields 11 low (bits_at bit 20 1),
      bit_or-fields 12 middle (bits_at bit 12 8),
      bit_or-fields 20 (middle + bits_at bit 12 8 * 2 ^ 12) (bits_at bit 31 1 * (2 ^ 12 - 1)),
    )

-- The upper 20 bits of the word, in place: what `LUI` and `AUIPC` carry.
pub utype_immediate_lem :
    (bit : ℕ) → bit < 2 ^ 32 → utype_immediate bit ≡ bits_at bit 12 20 * 2 ^ 12
unfolding utype_immediate slice_back
utype_immediate_lem bit h = ground arith
