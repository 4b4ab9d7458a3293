-- ===== src/Decode/Float.antt =====
-- The match arms of `Instruction::parse` in src/frontend/instruction.rs: floating-point instructions.
-- A function takes the scrutinees of its `match` and the word; the arms stand in source order.
use double_jit_vm.Prelude.{ℕ, Option, none, ◌==◌, if◌then◌else◌, ◌&&◌}
use double_jit_vm.Prelude.Outcome.{Outcome, ok, found}
use double_jit_vm.Instr.{Instr}
use double_jit_vm.Instr.Float.{Rv32F, Rv32D, Rv64F, Rv64D}
use double_jit_vm.Decode.Config.{rv32_no_e_rv32d, rv32_no_e_rv32f, rv64_no_e_rv64d, rv64_no_e_rv64f}
use double_jit_vm.Decode.Format.{
  fp, gp, r4_format, rrm_format, rrm_no_rm_format, rrm_no_rs2_format, rrm_no_rs2_rm_format,
}

unfoldable pub op_fp_arms : ℕ → ℕ → ℕ → ℕ → Outcome (Option Instr)
op_fp_arms f7 f3 r2 bit_u32 =
    if f7 == 0b0000000
    then found (rrm_format rv32_no_e_rv32f Rv32F.fadd_s fp fp bit_u32)
    else if f7 == 0b0000001
    then found (rrm_format rv32_no_e_rv32d Rv32D.fadd_d fp fp bit_u32)
    else if f7 == 0b0000100
    then found (rrm_format rv32_no_e_rv32f Rv32F.fsub_s fp fp bit_u32)
    else if f7 == 0b0000101
    then found (rrm_format rv32_no_e_rv32d Rv32D.fsub_d fp fp bit_u32)
    else if f7 == 0b0001000
    then found (rrm_format rv32_no_e_rv32f Rv32F.fmul_s fp fp bit_u32)
    else if f7 == 0b0001001
    then found (rrm_format rv32_no_e_rv32d Rv32D.fmul_d fp fp bit_u32)
    else if f7 == 0b0001100
    then found (rrm_format rv32_no_e_rv32f Rv32F.fdiv_s fp fp bit_u32)
    else if f7 == 0b0001101
    then found (rrm_format rv32_no_e_rv32d Rv32D.fdiv_d fp fp bit_u32)
    else if f7 == 0b0101100
    then found (rrm_no_rs2_format rv32_no_e_rv32f Rv32F.fsqrt_s fp fp bit_u32)
    else if f7 == 0b0101101
    then found (rrm_no_rs2_format rv32_no_e_rv32d Rv32D.fsqrt_d fp fp bit_u32)
    else if f7 == 0b0010000
    then (if f3 == 0b000
        then found (rrm_no_rm_format rv32_no_e_rv32f Rv32F.fsgnj_s fp fp bit_u32)
        else if f3 == 0b001
        then found (rrm_no_rm_format rv32_no_e_rv32f Rv32F.fsgnjn_s fp fp bit_u32)
        else if f3 == 0b010
        then found (rrm_no_rm_format rv32_no_e_rv32f Rv32F.fsgnjx_s fp fp bit_u32)
        else ok none)
    else if f7 == 0b0010001
    then (if f3 == 0b000
        then found (rrm_no_rm_format rv32_no_e_rv32d Rv32D.fsgnj_d fp fp bit_u32)
        else if f3 == 0b001
        then found (rrm_no_rm_format rv32_no_e_rv32d Rv32D.fsgnjn_d fp fp bit_u32)
        else if f3 == 0b010
        then found (rrm_no_rm_format rv32_no_e_rv32d Rv32D.fsgnjx_d fp fp bit_u32)
        else ok none)
    else if f7 == 0b0010100
    then (if f3 == 0b000
        then found (rrm_no_rm_format rv32_no_e_rv32f Rv32F.fmin_s fp fp bit_u32)
        else if f3 == 0b001
        then found (rrm_no_rm_format rv32_no_e_rv32f Rv32F.fmax_s fp fp bit_u32)
        else ok none)
    else if f7 == 0b0010101
    then (if f3 == 0b000
        then found (rrm_no_rm_format rv32_no_e_rv32d Rv32D.fmin_d fp fp bit_u32)
        else if f3 == 0b001
        then found (rrm_no_rm_format rv32_no_e_rv32d Rv32D.fmax_d fp fp bit_u32)
        else ok none)
    else if f7 == 0b1100000
    then (if r2 == 0b00000
        then found (rrm_no_rs2_format rv32_no_e_rv32f Rv32F.fcvt_w_s gp fp bit_u32)
        else if r2 == 0b00001
        then found (rrm_no_rs2_format rv32_no_e_rv32f Rv32F.fcvt_wu_s gp fp bit_u32)
        else if r2 == 0b00010
        then found (rrm_no_rs2_format rv64_no_e_rv64f Rv64F.fcvt_l_s gp fp bit_u32)
        else if r2 == 0b00011
        then found (rrm_no_rs2_format rv64_no_e_rv64f Rv64F.fcvt_lu_s gp fp bit_u32)
        else ok none)
    else if f7 == 0b1110000
    then (if r2 == 0b00000
        then (if f3 == 0b000
            then found (rrm_no_rs2_rm_format rv32_no_e_rv32f Rv32F.fmv_x_w gp fp bit_u32)
            else if f3 == 0b001
            then found (rrm_no_rs2_rm_format rv32_no_e_rv32f Rv32F.fclass_s gp fp bit_u32)
            else ok none)
        else ok none)
    else if f7 == 0b0100000
    then if r2 == 0b00001
      then found (rrm_no_rs2_format rv32_no_e_rv32d Rv32D.fcvt_s_d fp fp bit_u32)
      else ok none
    else if f7 == 0b0100001
    then if r2 == 0b00000
      then found (rrm_no_rs2_format rv32_no_e_rv32d Rv32D.fcvt_d_s fp fp bit_u32)
      else ok none
    else if f7 == 0b1010000
    then (if f3 == 0b010
        then found (rrm_no_rm_format rv32_no_e_rv32f Rv32F.feq_s gp fp bit_u32)
        else if f3 == 0b001
        then found (rrm_no_rm_format rv32_no_e_rv32f Rv32F.flt_s gp fp bit_u32)
        else if f3 == 0b000
        then found (rrm_no_rm_format rv32_no_e_rv32f Rv32F.fle_s gp fp bit_u32)
        else ok none)
    else if f7 == 0b1010001
    then (if f3 == 0b010
        then found (rrm_no_rm_format rv32_no_e_rv32d Rv32D.feq_d gp fp bit_u32)
        else if f3 == 0b001
        then found (rrm_no_rm_format rv32_no_e_rv32d Rv32D.flt_d gp fp bit_u32)
        else if f3 == 0b000
        then found (rrm_no_rm_format rv32_no_e_rv32d Rv32D.fle_d gp fp bit_u32)
        else ok none)
    else if f7 == 0b1101000
    then (if r2 == 0b00000
        then found (rrm_no_rs2_format rv32_no_e_rv32f Rv32F.fcvt_s_w fp gp bit_u32)
        else if r2 == 0b00001
        then found (rrm_no_rs2_format rv32_no_e_rv32f Rv32F.fcvt_s_wu fp gp bit_u32)
        else if r2 == 0b00010
        then found (rrm_no_rs2_format rv64_no_e_rv64f Rv64F.fcvt_s_l fp gp bit_u32)
        else if r2 == 0b00011
        then found (rrm_no_rs2_format rv64_no_e_rv64f Rv64F.fcvt_s_lu fp gp bit_u32)
        else ok none)
    else if f7 == 0b1111000
    then if r2 == 0b00000 && f3 == 0b000
      then found (rrm_no_rs2_rm_format rv32_no_e_rv32f Rv32F.fmv_w_x fp gp bit_u32)
      else ok none
    else if f7 == 0b1111001
    then if r2 == 0b00000 && f3 == 0b000
      then found (rrm_no_rs2_rm_format rv64_no_e_rv64d Rv64D.fmv_d_x fp gp bit_u32)
      else ok none
    else if f7 == 0b1110001
    then (if r2 == 0b00000 && f3 == 0b000
        then found (rrm_no_rs2_rm_format rv64_no_e_rv64d Rv64D.fmv_x_d gp fp bit_u32)
        else if r2 == 0b00000 && f3 == 0b001
        then found (rrm_no_rs2_rm_format rv32_no_e_rv32d Rv32D.fclass_d gp fp bit_u32)
        else ok none)
    else if f7 == 0b1100001
    then (if r2 == 0b00000
        then found (rrm_no_rs2_format rv32_no_e_rv32d Rv32D.fcvt_w_d gp fp bit_u32)
        else if r2 == 0b00001
        then found (rrm_no_rs2_format rv32_no_e_rv32d Rv32D.fcvt_wu_d gp fp bit_u32)
        else if r2 == 0b00010
        then found (rrm_no_rs2_format rv64_no_e_rv64d Rv64D.fcvt_l_d gp fp bit_u32)
        else if r2 == 0b00011
        then found (rrm_no_rs2_format rv64_no_e_rv64d Rv64D.fcvt_lu_d gp fp bit_u32)
        else ok none)
    else if f7 == 0b1101001
    then (if r2 == 0b00000
        then found (rrm_no_rs2_format rv32_no_e_rv32d Rv32D.fcvt_d_w fp gp bit_u32)
        else if r2 == 0b00001
        then found (rrm_no_rs2_format rv32_no_e_rv32d Rv32D.fcvt_d_wu fp gp bit_u32)
        else if r2 == 0b00010
        then found (rrm_no_rs2_format rv64_no_e_rv64d Rv64D.fcvt_d_l fp gp bit_u32)
        else if r2 == 0b00011
        then found (rrm_no_rs2_format rv64_no_e_rv64d Rv64D.fcvt_d_lu fp gp bit_u32)
        else ok none)
    else ok none

unfoldable pub fmadd_arms : ℕ → ℕ → Outcome (Option Instr)
fmadd_arms f2 bit_u32 =
    if f2 == 0b00
    then found (r4_format rv32_no_e_rv32f Rv32F.fmadd_s fp bit_u32)
    else if f2 == 0b01
    then found (r4_format rv32_no_e_rv32d Rv32D.fmadd_d fp bit_u32)
    else ok none

unfoldable pub fmsub_arms : ℕ → ℕ → Outcome (Option Instr)
fmsub_arms f2 bit_u32 =
    if f2 == 0b00
    then found (r4_format rv32_no_e_rv32f Rv32F.fmsub_s fp bit_u32)
    else if f2 == 0b01
    then found (r4_format rv32_no_e_rv32d Rv32D.fmsub_d fp bit_u32)
    else ok none

unfoldable pub fnmadd_arms : ℕ → ℕ → Outcome (Option Instr)
fnmadd_arms f2 bit_u32 =
    if f2 == 0b00
    then found (r4_format rv32_no_e_rv32f Rv32F.fnmadd_s fp bit_u32)
    else if f2 == 0b01
    then found (r4_format rv32_no_e_rv32d Rv32D.fnmadd_d fp bit_u32)
    else ok none

unfoldable pub fnmsub_arms : ℕ → ℕ → Outcome (Option Instr)
fnmsub_arms f2 bit_u32 =
    if f2 == 0b00
    then found (r4_format rv32_no_e_rv32f Rv32F.fnmsub_s fp bit_u32)
    else if f2 == 0b01
    then found (r4_format rv32_no_e_rv32d Rv32D.fnmsub_d fp bit_u32)
    else ok none
