-- ===== src/Decode/System.antt =====
-- The match arms of `Instruction::parse` in src/frontend/instruction.rs: system, control-register and atomic instructions.
-- A function takes the scrutinees of its `match` and the word; the arms stand in source order.
use double_jit_vm.Prelude.{ℕ, Option, none, ◌==◌, if◌then◌else◌}
use double_jit_vm.Prelude.Outcome.{Outcome, ok, found}
use double_jit_vm.Instr.{Instr}
use double_jit_vm.Instr.Base32.{Rv32I}
use double_jit_vm.Instr.MulAtomic.{Rv32A, Rv64A}
use double_jit_vm.Instr.System.{RvPreviledge, RvZcsr}
use double_jit_vm.Decode.Config.{
  Config, rv32, rv32_no_e_rv32a, rv64_no_e_rv64a, rv64_no_e_rvpreviledge, rv64_no_e_rvzcsr,
}
use double_jit_vm.Decode.Format.{
  gp, ra_format, ra_only_rs1_format, rs1_rs2_format, zicsr_rs1_format, zicsr_uimm_format,
}

unfoldable pub system_arms : Config → ℕ → ℕ → ℕ → ℕ → ℕ → Outcome (Option Instr)
system_arms cfg f3 f7 r2 imm bit_u32 =
    if f3 == 0b000
    then (if imm == 0b0
        then found (ok (rv32 cfg Rv32I.ecall))
        else if imm == 0b1
        then found (ok (rv32 cfg Rv32I.ebreak))
        else if f7 == 0b0001000
        then (if r2 == 0b00010
            then found (ok (rv64_no_e_rvpreviledge RvPreviledge.sret))
            else if r2 == 0b00101
            then found (ok (rv64_no_e_rvpreviledge RvPreviledge.wfi))
            else ok none)
        else if f7 == 0b0011000
        then found (ok (rv64_no_e_rvpreviledge RvPreviledge.mret))
        else if f7 == 0b0001001
        then found (rs1_rs2_format rv64_no_e_rvpreviledge RvPreviledge.sfence_vma gp bit_u32)
        else if f7 == 0b0001011
        then found (rs1_rs2_format rv64_no_e_rvpreviledge RvPreviledge.sinval_vma gp bit_u32)
        else if f7 == 0b0001100
        then (if r2 == 0b0
            then found (ok (rv64_no_e_rvpreviledge RvPreviledge.sfence_w_inval))
            else if r2 == 0b1
            then found (ok (rv64_no_e_rvpreviledge RvPreviledge.sfence_inval_ir))
            else ok none)
        else ok none)
    else if f3 == 0b001
    then found (zicsr_rs1_format rv64_no_e_rvzcsr RvZcsr.csrrw gp bit_u32)
    else if f3 == 0b010
    then found (zicsr_rs1_format rv64_no_e_rvzcsr RvZcsr.csrrs gp bit_u32)
    else if f3 == 0b011
    then found (zicsr_rs1_format rv64_no_e_rvzcsr RvZcsr.csrrc gp bit_u32)
    else if f3 == 0b101
    then found (zicsr_uimm_format rv64_no_e_rvzcsr RvZcsr.csrrwi gp bit_u32)
    else if f3 == 0b110
    then found (zicsr_uimm_format rv64_no_e_rvzcsr RvZcsr.csrrsi gp bit_u32)
    else if f3 == 0b111
    then found (zicsr_uimm_format rv64_no_e_rvzcsr RvZcsr.csrrci gp bit_u32)
    else ok none

unfoldable pub amo_arms : ℕ → ℕ → ℕ → Outcome (Option Instr)
amo_arms f3 f5 bit_u32 =
    if f3 == 0b010
    then (if f5 == 0b00010
        then found (ra_only_rs1_format rv32_no_e_rv32a Rv32A.lr_w gp bit_u32)
        else if f5 == 0b00011
        then found (ra_format rv32_no_e_rv32a Rv32A.sc_w gp bit_u32)
        else if f5 == 0b00001
        then found (ra_format rv32_no_e_rv32a Rv32A.amoswap_w gp bit_u32)
        else if f5 == 0b00000
        then found (ra_format rv32_no_e_rv32a Rv32A.amoadd_w gp bit_u32)
        else if f5 == 0b00100
        then found (ra_format rv32_no_e_rv32a Rv32A.amoxor_w gp bit_u32)
        else if f5 == 0b01100
        then found (ra_format rv32_no_e_rv32a Rv32A.amoand_w gp bit_u32)
        else if f5 == 0b01000
        then found (ra_format rv32_no_e_rv32a Rv32A.amoor_w gp bit_u32)
        else if f5 == 0b10000
        then found (ra_format rv32_no_e_rv32a Rv32A.amomin_w gp bit_u32)
        else if f5 == 0b10100
        then found (ra_format rv32_no_e_rv32a Rv32A.amomax_w gp bit_u32)
        else if f5 == 0b11000
        then found (ra_format rv32_no_e_rv32a Rv32A.amominu_w gp bit_u32)
        else if f5 == 0b11100
        then found (ra_format rv32_no_e_rv32a Rv32A.amomaxu_w gp bit_u32)
        else ok none)
    else if f3 == 0b011
    then (if f5 == 0b00010
        then found (ra_only_rs1_format rv64_no_e_rv64a Rv64A.lr_d gp bit_u32)
        else if f5 == 0b00011
        then found (ra_format rv64_no_e_rv64a Rv64A.sc_d gp bit_u32)
        else if f5 == 0b00001
        then found (ra_format rv64_no_e_rv64a Rv64A.amoswap_d gp bit_u32)
        else if f5 == 0b00000
        then found (ra_format rv64_no_e_rv64a Rv64A.amoadd_d gp bit_u32)
        else if f5 == 0b00100
        then found (ra_format rv64_no_e_rv64a Rv64A.amoxor_d gp bit_u32)
        else if f5 == 0b01100
        then found (ra_format rv64_no_e_rv64a Rv64A.amoand_d gp bit_u32)
        else if f5 == 0b01000
        then found (ra_format rv64_no_e_rv64a Rv64A.amoor_d gp bit_u32)
        else if f5 == 0b10000
        then found (ra_format rv64_no_e_rv64a Rv64A.amomin_d gp bit_u32)
        else if f5 == 0b10100
        then found (ra_format rv64_no_e_rv64a Rv64A.amomax_d gp bit_u32)
        else if f5 == 0b11000
        then found (ra_format rv64_no_e_rv64a Rv64A.amominu_d gp bit_u32)
        else if f5 == 0b11100
        then found (ra_format rv64_no_e_rv64a Rv64A.amomaxu_d gp bit_u32)
        else ok none)
    else ok none
