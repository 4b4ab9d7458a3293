-- ===== src/Decode/Typed/Fields.antt =====
-- The numbers that the field helpers of src/frontend/instruction.rs cut out of a word are in the range
-- of the operand that they become, whatever the word is.
use Prim.Native.Nat.{bit_and, bit_or}
use double_jit_vm.Prelude.{ℕ, zero, suc, ◌/◌, ◌%◌, ◌^◌, ◌<◌, ◌≡◌, arith}
use double_jit_vm.Bits.{bit_or-halves, bit_and-low_mask, bit_and-field_mask}
use double_jit_vm.Field.{
  slice, slice_back, rd, btype_immediate, jtype_immediate, itype_immediate, stype_immediate,
}
use double_jit_vm.Field.Laws.{slice_lem, rd_lem}
use double_jit_vm.Field.Compressed.{
  c_rs2, c_r, c_immediate, c_uimmediate, c_j_immediate, c_b_immediate, c_fld_uimmediate,
  c_sw_uimmediate, c_lwsp_uimmediate, c_fldsp_uimmediate, c_swsp_uimmediate,
}

pub bit_or-fits : (k a b : ℕ) → a < 2 ^ k → b < 2 ^ k → bit_or a b < 2 ^ k
bit_or-fits zero a b h g =
    let a_zero : a ≡ 0 = omega arith in
    let b_zero : b ≡ 0 = omega arith in rw (a_zero, b_zero) (omega arith)
bit_or-fits (suc k) a b h g =
    let rest = bit_or-fits k (a / 2) (b / 2) (omega arith) (omega arith) in
    ground (arith, rest, bit_or-halves a b)

pub slice-fits : (bit lo len s : ℕ) → slice bit lo len s < 2 ^ 32
unfolding slice
slice-fits bit lo len s = omega arith

pub slice_back-fits : (bit lo len s : ℕ) → slice_back bit lo len s < 2 ^ 32
unfolding slice_back
slice_back-fits bit lo len s = omega arith

ruleset fits = (bit_or-fits, slice-fits, slice_back-fits)

pub itype_immediate-fits : (bit : ℕ) → itype_immediate bit < 2 ^ 32
unfolding itype_immediate
itype_immediate-fits bit = search fits

pub btype_immediate-fits : (bit : ℕ) → btype_immediate bit < 2 ^ 32
unfolding btype_immediate
btype_immediate-fits bit = search fits

pub jtype_immediate-fits : (bit : ℕ) → jtype_immediate bit < 2 ^ 32
unfolding jtype_immediate
jtype_immediate-fits bit = search fits depth 20

pub stype_immediate-fits : (bit : ℕ) → stype_immediate bit < 2 ^ 32
unfolding stype_immediate
stype_immediate-fits bit = search fits

pub c_immediate-fits : (bit : ℕ) → c_immediate bit < 2 ^ 32
unfolding c_immediate
c_immediate-fits bit = search fits

pub c_j_immediate-fits : (bit : ℕ) → c_j_immediate bit < 2 ^ 32
unfolding c_j_immediate
c_j_immediate-fits bit = search fits depth 30

pub c_b_immediate-fits : (bit : ℕ) → c_b_immediate bit < 2 ^ 32
unfolding c_b_immediate
c_b_immediate-fits bit = search fits depth 30

pub c_fld_uimmediate-fits : (bit : ℕ) → c_fld_uimmediate bit < 2 ^ 32
unfolding c_fld_uimmediate
c_fld_uimmediate-fits bit = search fits

pub c_sw_uimmediate-fits : (bit : ℕ) → c_sw_uimmediate bit < 2 ^ 32
unfolding c_sw_uimmediate
c_sw_uimmediate-fits bit = search fits

pub c_lwsp_uimmediate-fits : (bit : ℕ) → c_lwsp_uimmediate bit < 2 ^ 32
unfolding c_lwsp_uimmediate
c_lwsp_uimmediate-fits bit = search fits

pub c_fldsp_uimmediate-fits : (bit : ℕ) → c_fldsp_uimmediate bit < 2 ^ 32
unfolding c_fldsp_uimmediate
c_fldsp_uimmediate-fits bit = search fits

pub c_swsp_uimmediate-fits : (bit : ℕ) → c_swsp_uimmediate bit < 2 ^ 32
unfolding c_swsp_uimmediate
c_swsp_uimmediate-fits bit = search fits

-- Registers.
pub rd-below : (bit : ℕ) → rd bit < 32
rd-below bit = omega (arith, rd_lem bit)

pub c_rs2-below : (bit : ℕ) → c_rs2 bit < 32
unfolding c_rs2
c_rs2-below bit = omega (arith, slice_lem bit 2 5 0)

pub c_r-below : (bit lo : ℕ) → c_r bit lo < 32
unfolding c_r
c_r-below bit lo = omega (arith, slice_lem bit lo 3 0)

-- Shift amounts.
pub c_uimmediate-below : (bit : ℕ) → c_uimmediate bit % 2 ^ 8 < 64
unfolding c_uimmediate
c_uimmediate-below bit =
    let low = slice_lem bit 2 5 0 in
    let high = slice_lem bit 12 1 5 in
    let joined = bit_or-fits 6 (slice bit 2 5 0) (slice bit 12 1 5) (omega arith) (omega arith) in
    omega arith

-- The two parts of a compressed shift amount, masked where they stand.
pub high_part-below : (n : ℕ) → bit_and n 0x20 < 64
high_part-below n = omega (arith, bit_and-field_mask 5 1 n)

pub low_part-below : (n : ℕ) → bit_and n 0x1f < 64
low_part-below n = omega (arith, bit_and-low_mask 5 n)
