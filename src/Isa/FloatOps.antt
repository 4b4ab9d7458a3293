-- ===== src/Isa/FloatOps.antt =====
-- The floating-point arithmetic of the manuals that takes a rounding mode.
use double_jit_vm.Prelude.{ℕ}
use double_jit_vm.Isa.Words.{Code, code}
use double_jit_vm.Instr.{Instr}
use double_jit_vm.Instr.Operand.{Rd, Rs1, Rs2, Rs3, RoundingMode}
use double_jit_vm.Instr.Float.{Rv32F, Rv32D}
use double_jit_vm.Decode.Config.{Config, rv32_no_e_rv32f, rv32_no_e_rv32d}

-- The number of a rounding mode in the manuals.
abbrev pub mode_code : RoundingMode → ℕ
mode_code RoundingMode.rne = 0
mode_code RoundingMode.rtz = 1
mode_code RoundingMode.rdn = 2
mode_code RoundingMode.rup = 3
mode_code RoundingMode.rmm = 4
mode_code RoundingMode.dyn = 7

-- Two sources, one destination.
pub data FloatOp : Type 0 where
  fadd_s fsub_s fmul_s fdiv_s fadd_d fsub_d fmul_d fdiv_d : FloatOp

abbrev pub float_code : FloatOp → Code
float_code FloatOp.fadd_s = code 0b1010011 0b0000000 0
float_code FloatOp.fsub_s = code 0b1010011 0b0000100 0
float_code FloatOp.fmul_s = code 0b1010011 0b0001000 0
float_code FloatOp.fdiv_s = code 0b1010011 0b0001100 0
float_code FloatOp.fadd_d = code 0b1010011 0b0000001 0
float_code FloatOp.fsub_d = code 0b1010011 0b0000101 0
float_code FloatOp.fmul_d = code 0b1010011 0b0001001 0
float_code FloatOp.fdiv_d = code 0b1010011 0b0001101 0

abbrev pub float_instr : Config → FloatOp → Rd → Rs1 → Rs2 → RoundingMode → Instr
float_instr cfg FloatOp.fadd_s d a b c = rv32_no_e_rv32f (Rv32F.fadd_s d a b c)
float_instr cfg FloatOp.fsub_s d a b c = rv32_no_e_rv32f (Rv32F.fsub_s d a b c)
float_instr cfg FloatOp.fmul_s d a b c = rv32_no_e_rv32f (Rv32F.fmul_s d a b c)
float_instr cfg FloatOp.fdiv_s d a b c = rv32_no_e_rv32f (Rv32F.fdiv_s d a b c)
float_instr cfg FloatOp.fadd_d d a b c = rv32_no_e_rv32d (Rv32D.fadd_d d a b c)
float_instr cfg FloatOp.fsub_d d a b c = rv32_no_e_rv32d (Rv32D.fsub_d d a b c)
float_instr cfg FloatOp.fmul_d d a b c = rv32_no_e_rv32d (Rv32D.fmul_d d a b c)
float_instr cfg FloatOp.fdiv_d d a b c = rv32_no_e_rv32d (Rv32D.fdiv_d d a b c)

-- Fused multiply-add; the third code is `funct2`.
pub data FmaOp : Type 0 where
  fmadd_s fmsub_s fnmsub_s fnmadd_s fmadd_d fmsub_d fnmsub_d fnmadd_d : FmaOp

abbrev pub fma_code : FmaOp → Code
fma_code FmaOp.fmadd_s = code 0b1000011 0b00 0
fma_code FmaOp.fmsub_s = code 0b1000111 0b00 0
fma_code FmaOp.fnmsub_s = code 0b1001011 0b00 0
fma_code FmaOp.fnmadd_s = code 0b1001111 0b00 0
fma_code FmaOp.fmadd_d = code 0b1000011 0b01 0
fma_code FmaOp.fmsub_d = code 0b1000111 0b01 0
fma_code FmaOp.fnmsub_d = code 0b1001011 0b01 0
fma_code FmaOp.fnmadd_d = code 0b1001111 0b01 0

abbrev pub fma_instr : Config → FmaOp → Rd → Rs1 → Rs2 → Rs3 → RoundingMode → Instr
fma_instr cfg FmaOp.fmadd_s d a b c e = rv32_no_e_rv32f (Rv32F.fmadd_s d a b c e)
fma_instr cfg FmaOp.fmsub_s d a b c e = rv32_no_e_rv32f (Rv32F.fmsub_s d a b c e)
fma_instr cfg FmaOp.fnmsub_s d a b c e = rv32_no_e_rv32f (Rv32F.fnmsub_s d a b c e)
fma_instr cfg FmaOp.fnmadd_s d a b c e = rv32_no_e_rv32f (Rv32F.fnmadd_s d a b c e)
fma_instr cfg FmaOp.fmadd_d d a b c e = rv32_no_e_rv32d (Rv32D.fmadd_d d a b c e)
fma_instr cfg FmaOp.fmsub_d d a b c e = rv32_no_e_rv32d (Rv32D.fmsub_d d a b c e)
fma_instr cfg FmaOp.fnmsub_d d a b c e = rv32_no_e_rv32d (Rv32D.fnmsub_d d a b c e)
fma_instr cfg FmaOp.fnmadd_d d a b c e = rv32_no_e_rv32d (Rv32D.fnmadd_d d a b c e)
