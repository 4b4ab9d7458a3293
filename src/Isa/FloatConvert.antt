-- ===== src/Isa/FloatConvert.antt =====
-- The square roots and the conversions of the manuals: one source, and a rounding mode.
use double_jit_vm.Prelude.{ℕ}
use double_jit_vm.Instr.{Instr}
use double_jit_vm.Instr.Operand.{Xx, Reg, Rd, Rs1, RoundingMode}
use double_jit_vm.Instr.Float.{Rv32F, Rv32D, Rv64F, Rv64D}
use double_jit_vm.Decode.Config.{rv32_no_e_rv32d, rv32_no_e_rv32f, rv64_no_e_rv64d, rv64_no_e_rv64f}

-- `funct7`, and the code in the field of `rs2` or in `funct3`.
pub record FloatCode : Type 0 where
  pub funct7 : ℕ
  pub sub : ℕ

abbrev pub float_sub : ℕ → ℕ → FloatCode
float_sub funct7 sub = record { funct7 = funct7; sub = sub }

pub data ConvertOp : Type 0 where
  fsqrt_s fsqrt_d fcvt_w_s fcvt_wu_s fcvt_l_s fcvt_lu_s fcvt_w_d fcvt_wu_d : ConvertOp
  fcvt_l_d fcvt_lu_d fcvt_s_w fcvt_s_wu fcvt_s_l fcvt_s_lu fcvt_d_w fcvt_d_wu : ConvertOp
  fcvt_d_l fcvt_d_lu fcvt_s_d fcvt_d_s : ConvertOp

abbrev pub convert_code : ConvertOp → FloatCode
convert_code ConvertOp.fsqrt_s = float_sub 0b0101100 0
convert_code ConvertOp.fsqrt_d = float_sub 0b0101101 0
convert_code ConvertOp.fcvt_w_s = float_sub 0b1100000 0
convert_code ConvertOp.fcvt_wu_s = float_sub 0b1100000 1
convert_code ConvertOp.fcvt_l_s = float_sub 0b1100000 2
convert_code ConvertOp.fcvt_lu_s = float_sub 0b1100000 3
convert_code ConvertOp.fcvt_w_d = float_sub 0b1100001 0
convert_code ConvertOp.fcvt_wu_d = float_sub 0b1100001 1
convert_code ConvertOp.fcvt_l_d = float_sub 0b1100001 2
convert_code ConvertOp.fcvt_lu_d = float_sub 0b1100001 3
convert_code ConvertOp.fcvt_s_w = float_sub 0b1101000 0
convert_code ConvertOp.fcvt_s_wu = float_sub 0b1101000 1
convert_code ConvertOp.fcvt_s_l = float_sub 0b1101000 2
convert_code ConvertOp.fcvt_s_lu = float_sub 0b1101000 3
convert_code ConvertOp.fcvt_d_w = float_sub 0b1101001 0
convert_code ConvertOp.fcvt_d_wu = float_sub 0b1101001 1
convert_code ConvertOp.fcvt_d_l = float_sub 0b1101001 2
convert_code ConvertOp.fcvt_d_lu = float_sub 0b1101001 3
convert_code ConvertOp.fcvt_s_d = float_sub 0b0100000 1
convert_code ConvertOp.fcvt_d_s = float_sub 0b0100001 0

-- The register files of the destination and of the source.
abbrev pub convert_to : ConvertOp → Xx 32 → Reg
convert_to ConvertOp.fsqrt_s = Reg.f
convert_to ConvertOp.fsqrt_d = Reg.f
convert_to ConvertOp.fcvt_w_s = Reg.x
convert_to ConvertOp.fcvt_wu_s = Reg.x
convert_to ConvertOp.fcvt_l_s = Reg.x
convert_to ConvertOp.fcvt_lu_s = Reg.x
convert_to ConvertOp.fcvt_w_d = Reg.x
convert_to ConvertOp.fcvt_wu_d = Reg.x
convert_to ConvertOp.fcvt_l_d = Reg.x
convert_to ConvertOp.fcvt_lu_d = Reg.x
convert_to ConvertOp.fcvt_s_w = Reg.f
convert_to ConvertOp.fcvt_s_wu = Reg.f
convert_to ConvertOp.fcvt_s_l = Reg.f
convert_to ConvertOp.fcvt_s_lu = Reg.f
convert_to ConvertOp.fcvt_d_w = Reg.f
convert_to ConvertOp.fcvt_d_wu = Reg.f
convert_to ConvertOp.fcvt_d_l = Reg.f
convert_to ConvertOp.fcvt_d_lu = Reg.f
convert_to ConvertOp.fcvt_s_d = Reg.f
convert_to ConvertOp.fcvt_d_s = Reg.f

abbrev pub convert_from : ConvertOp → Xx 32 → Reg
convert_from ConvertOp.fsqrt_s = Reg.f
convert_from ConvertOp.fsqrt_d = Reg.f
convert_from ConvertOp.fcvt_w_s = Reg.f
convert_from ConvertOp.fcvt_wu_s = Reg.f
convert_from ConvertOp.fcvt_l_s = Reg.f
convert_from ConvertOp.fcvt_lu_s = Reg.f
convert_from ConvertOp.fcvt_w_d = Reg.f
convert_from ConvertOp.fcvt_wu_d = Reg.f
convert_from ConvertOp.fcvt_l_d = Reg.f
convert_from ConvertOp.fcvt_lu_d = Reg.f
convert_from ConvertOp.fcvt_s_w = Reg.x
convert_from ConvertOp.fcvt_s_wu = Reg.x
convert_from ConvertOp.fcvt_s_l = Reg.x
convert_from ConvertOp.fcvt_s_lu = Reg.x
convert_from ConvertOp.fcvt_d_w = Reg.x
convert_from ConvertOp.fcvt_d_wu = Reg.x
convert_from ConvertOp.fcvt_d_l = Reg.x
convert_from ConvertOp.fcvt_d_lu = Reg.x
convert_from ConvertOp.fcvt_s_d = Reg.f
convert_from ConvertOp.fcvt_d_s = Reg.f

abbrev pub convert_instr : ConvertOp → Rd → Rs1 → RoundingMode → Instr
convert_instr ConvertOp.fsqrt_s d a mode = rv32_no_e_rv32f (Rv32F.fsqrt_s d a mode)
convert_instr ConvertOp.fsqrt_d d a mode = rv32_no_e_rv32d (Rv32D.fsqrt_d d a mode)
convert_instr ConvertOp.fcvt_w_s d a mode = rv32_no_e_rv32f (Rv32F.fcvt_w_s d a mode)
convert_instr ConvertOp.fcvt_wu_s d a mode = rv32_no_e_rv32f (Rv32F.fcvt_wu_s d a mode)
convert_instr ConvertOp.fcvt_l_s d a mode = rv64_no_e_rv64f (Rv64F.fcvt_l_s d a mode)
convert_instr ConvertOp.fcvt_lu_s d a mode = rv64_no_e_rv64f (Rv64F.fcvt_lu_s d a mode)
convert_instr ConvertOp.fcvt_w_d d a mode = rv32_no_e_rv32d (Rv32D.fcvt_w_d d a mode)
convert_instr ConvertOp.fcvt_wu_d d a mode = rv32_no_e_rv32d (Rv32D.fcvt_wu_d d a mode)
convert_instr ConvertOp.fcvt_l_d d a mode = rv64_no_e_rv64d (Rv64D.fcvt_l_d d a mode)
convert_instr ConvertOp.fcvt_lu_d d a mode = rv64_no_e_rv64d (Rv64D.fcvt_lu_d d a mode)
convert_instr ConvertOp.fcvt_s_w d a mode = rv32_no_e_rv32f (Rv32F.fcvt_s_w d a mode)
convert_instr ConvertOp.fcvt_s_wu d a mode = rv32_no_e_rv32f (Rv32F.fcvt_s_wu d a mode)
convert_instr ConvertOp.fcvt_s_l d a mode = rv64_no_e_rv64f (Rv64F.fcvt_s_l d a mode)
convert_instr ConvertOp.fcvt_s_lu d a mode = rv64_no_e_rv64f (Rv64F.fcvt_s_lu d a mode)
convert_instr ConvertOp.fcvt_d_w d a mode = rv32_no_e_rv32d (Rv32D.fcvt_d_w d a mode)
convert_instr ConvertOp.fcvt_d_wu d a mode = rv32_no_e_rv32d (Rv32D.fcvt_d_wu d a mode)
convert_instr ConvertOp.fcvt_d_l d a mode = rv64_no_e_rv64d (Rv64D.fcvt_d_l d a mode)
convert_instr ConvertOp.fcvt_d_lu d a mode = rv64_no_e_rv64d (Rv64D.fcvt_d_lu d a mode)
convert_instr ConvertOp.fcvt_s_d d a mode = rv32_no_e_rv32d (Rv32D.fcvt_s_d d a mode)
convert_instr ConvertOp.fcvt_d_s d a mode = rv32_no_e_rv32d (Rv32D.fcvt_d_s d a mode)
