-- ===== src/Compressed.antt =====
-- `try_from_compressed` of src/frontend/instruction.rs on the word that it reads.
pub mod Half
pub mod Quadrants
pub mod Total
use Prim.Native.Nat.{bit_and}
use double_jit_vm.Prelude.{ℕ, Option, none, some, ◌==◌, if◌then◌else◌}
use double_jit_vm.Prelude.Outcome.{Outcome, ok}
use double_jit_vm.Field.Compressed.{
  c_rs2, c_r, c_sw_uimmediate, c_j_immediate, c_b_immediate, c_swsp_uimmediate,
}
use double_jit_vm.Instr.{Instr}
use double_jit_vm.Instr.Operand.{Imm32}
use double_jit_vm.Instr.Base32.{Rv32I}
use double_jit_vm.Decode.Config.{Config, rv32}
use Quadrants.{
  x_rd, x_rs1, x_rs2, c_ld_arm, c_sd_arm, c_addi4spn_arm, c_addi_arm, c_jal_addiw_arm, c_li_arm,
  c_addi16sp_lui_arm, c_misc_alu_arm, c_slli_arm, c_lwsp_arm, c_ldsp_arm, c_jr_mv_add_arm,
  c_sdsp_arm,
}

-- The arms on `bit_u32 & 0b111_00000000000_11`, in source order. `C.BNEZ` builds `BEQ`, as `C.BEQZ`.
unfoldable pub compressed_arms : Config → ℕ → ℕ → Outcome (Option Instr)
compressed_arms cfg key bit_u32 =
    if key == 0b000_00000000000_00
    then ok (c_addi4spn_arm cfg bit_u32)
    else if key == 0b010_00000000000_00
    then ok (
        some (
          rv32 cfg (
            Rv32I.lw (x_rd (c_r bit_u32 2)) (x_rs1 (c_r bit_u32 7))
              (Imm32.imm (c_sw_uimmediate bit_u32)))))
    else if key == 0b011_00000000000_00
    then ok (c_ld_arm cfg bit_u32)
    else if key == 0b100_00000000000_00
    then ok none
    else if key == 0b110_00000000000_00
    then ok (
        some (
          rv32 cfg (
            Rv32I.sw (x_rs1 (c_r bit_u32 7)) (x_rs2 (c_r bit_u32 2))
              (Imm32.imm (c_sw_uimmediate bit_u32)))))
    else if key == 0b111_00000000000_00
    then ok (c_sd_arm cfg bit_u32)
    else if key == 0b000_00000000000_01
    then ok (c_addi_arm cfg bit_u32)
    else if key == 0b001_00000000000_01
    then ok (c_jal_addiw_arm cfg bit_u32)
    else if key == 0b010_00000000000_01
    then ok (c_li_arm cfg bit_u32)
    else if key == 0b011_00000000000_01
    then ok (c_addi16sp_lui_arm cfg bit_u32)
    else if key == 0b100_00000000000_01
    then ok (c_misc_alu_arm cfg bit_u32)
    else if key == 0b101_00000000000_01
    then ok (some (rv32 cfg (Rv32I.jal (x_rd 0) (Imm32.imm (c_j_immediate bit_u32)))))
    else if key == 0b110_00000000000_01
    then ok (
        some (
          rv32 cfg
            (Rv32I.beq (x_rs1 (c_r bit_u32 7)) (x_rs2 0) (Imm32.imm (c_b_immediate bit_u32)))))
    else if key == 0b111_00000000000_01
    then ok (
        some (
          rv32 cfg
            (Rv32I.beq (x_rs1 (c_r bit_u32 7)) (x_rs2 0) (Imm32.imm (c_b_immediate bit_u32)))))
    else if key == 0b000_00000000000_10
    then ok (c_slli_arm cfg bit_u32)
    else if key == 0b010_00000000000_10
    then ok (c_lwsp_arm cfg bit_u32)
    else if key == 0b011_00000000000_10
    then ok (c_ldsp_arm cfg bit_u32)
    else if key == 0b100_00000000000_10
    then c_jr_mv_add_arm cfg bit_u32
    else if key == 0b110_00000000000_10
    then ok (
        some (
          rv32 cfg
            (Rv32I.sw (x_rs1 2) (x_rs2 (c_rs2 bit_u32)) (Imm32.imm (c_swsp_uimmediate bit_u32)))))
    else if key == 0b111_00000000000_10
    then ok (c_sdsp_arm cfg bit_u32)
    else ok none

unfoldable pub try_from_compressed : Config → ℕ → Outcome (Option Instr)
try_from_compressed cfg bit_u32 = compressed_arms cfg (bit_and bit_u32 0b111_00000000000_11) bit_u32
