-- ===== src/Field/Compressed.antt =====
-- The register and immediate fields of the 16-bit formats, as in the `c_` helpers of
-- src/frontend/instruction.rs.
pub mod Laws
use Prim.Native.Nat.{bit_or}
use double_jit_vm.Prelude.{ℕ, ◌+◌}
use double_jit_vm.Field.{slice, slice_back}

unfoldable pub c_rs2 : ℕ → ℕ
c_rs2 bit_u32 = slice bit_u32 2 5 0

unfoldable pub c_r : ℕ → ℕ → ℕ
c_r bit_u32 least_bit = slice bit_u32 least_bit 3 0 + 8

unfoldable pub c_immediate : ℕ → ℕ
c_immediate bit_u32 = bit_or (slice bit_u32 2 5 0) (slice_back bit_u32 12 1 5)

unfoldable pub c_uimmediate : ℕ → ℕ
c_uimmediate bit_u32 = bit_or (slice bit_u32 2 5 0) (slice bit_u32 12 1 5)

unfoldable pub c_j_immediate : ℕ → ℕ
c_j_immediate bit_u32 =
    bit_or
      (bit_or
        (bit_or
          (bit_or
            (bit_or
              (bit_or (bit_or (slice bit_u32 3 3 1) (slice bit_u32 11 1 4)) (slice bit_u32 2 1 5))
              (slice bit_u32 7 1 6))
            (slice bit_u32 6 1 7))
          (slice bit_u32 9 2 8))
        (slice bit_u32 8 1 10))
      (slice_back bit_u32 12 1 11)

unfoldable pub c_fld_uimmediate : ℕ → ℕ
c_fld_uimmediate bit_u32 = bit_or (slice bit_u32 10 3 3) (slice bit_u32 5 2 6)

unfoldable pub c_sw_uimmediate : ℕ → ℕ
c_sw_uimmediate bit_u32 =
    bit_or (bit_or (slice bit_u32 6 1 2) (slice bit_u32 10 3 3)) (slice bit_u32 5 1 6)

unfoldable pub c_lwsp_uimmediate : ℕ → ℕ
c_lwsp_uimmediate bit_u32 =
    bit_or (bit_or (slice bit_u32 4 3 2) (slice bit_u32 12 1 5)) (slice bit_u32 2 2 6)

unfoldable pub c_fldsp_uimmediate : ℕ → ℕ
c_fldsp_uimmediate bit_u32 =
    bit_or (bit_or (slice bit_u32 5 2 3) (slice bit_u32 12 1 5)) (slice bit_u32 2 3 6)

unfoldable pub c_fsdsp_uimmediate : ℕ → ℕ
c_fsdsp_uimmediate bit_u32 = bit_or (slice bit_u32 10 3 3) (slice bit_u32 7 3 6)

unfoldable pub c_swsp_uimmediate : ℕ → ℕ
c_swsp_uimmediate bit_u32 = bit_or (slice bit_u32 9 4 2) (slice bit_u32 7 2 6)

unfoldable pub c_b_immediate : ℕ → ℕ
c_b_immediate bit_u32 =
    bit_or
      (bit_or (bit_or (bit_or (slice bit_u32 3 2 1) (slice bit_u32 10 2 3)) (slice bit_u32 2 1 5))
        (slice bit_u32 5 2 6))
      (slice_back bit_u32 12 1 8)
