-- ===== src/Isa/FloatMisc.antt =====
-- The other floating-point instructions of the manuals over registers: sign injections, minima, maxima
-- and comparisons, moves and classes, and those of `FloatConvert`.
use double_jit_vm.Prelude.{ℕ, ◌+◌, ◌*◌, ◌^◌, ◌<◌}
use double_jit_vm.Instr.{Instr}
use double_jit_vm.Instr.Operand.{Xx, Reg, Rd, Rs1, Rs2, RoundingMode}
use double_jit_vm.Instr.Float.{Rv32F, Rv32D, Rv64D}
use double_jit_vm.Decode.Config.{rv32_no_e_rv32d, rv32_no_e_rv32f, rv64_no_e_rv64d}
use double_jit_vm.Isa.FloatOps.{mode_code}
use double_jit_vm.Isa.FloatConvert.{
  FloatCode, float_sub, ConvertOp, convert_code, convert_to, convert_from, convert_instr,
}

-- Two float sources; the code is in `funct3`.
pub data PairOp : Type 0 where
  fsgnj_s fsgnjn_s fsgnjx_s fmin_s fmax_s feq_s flt_s fle_s fsgnj_d fsgnjn_d : PairOp
  fsgnjx_d fmin_d fmax_d feq_d flt_d fle_d : PairOp

abbrev pub pair_code : PairOp → FloatCode
pair_code PairOp.fsgnj_s = float_sub 0b0010000 0
pair_code PairOp.fsgnjn_s = float_sub 0b0010000 1
pair_code PairOp.fsgnjx_s = float_sub 0b0010000 2
pair_code PairOp.fmin_s = float_sub 0b0010100 0
pair_code PairOp.fmax_s = float_sub 0b0010100 1
pair_code PairOp.feq_s = float_sub 0b1010000 2
pair_code PairOp.flt_s = float_sub 0b1010000 1
pair_code PairOp.fle_s = float_sub 0b1010000 0
pair_code PairOp.fsgnj_d = float_sub 0b0010001 0
pair_code PairOp.fsgnjn_d = float_sub 0b0010001 1
pair_code PairOp.fsgnjx_d = float_sub 0b0010001 2
pair_code PairOp.fmin_d = float_sub 0b0010101 0
pair_code PairOp.fmax_d = float_sub 0b0010101 1
pair_code PairOp.feq_d = float_sub 0b1010001 2
pair_code PairOp.flt_d = float_sub 0b1010001 1
pair_code PairOp.fle_d = float_sub 0b1010001 0

abbrev pub pair_to : PairOp → Xx 32 → Reg
pair_to PairOp.fsgnj_s = Reg.f
pair_to PairOp.fsgnjn_s = Reg.f
pair_to PairOp.fsgnjx_s = Reg.f
pair_to PairOp.fmin_s = Reg.f
pair_to PairOp.fmax_s = Reg.f
pair_to PairOp.feq_s = Reg.x
pair_to PairOp.flt_s = Reg.x
pair_to PairOp.fle_s = Reg.x
pair_to PairOp.fsgnj_d = Reg.f
pair_to PairOp.fsgnjn_d = Reg.f
pair_to PairOp.fsgnjx_d = Reg.f
pair_to PairOp.fmin_d = Reg.f
pair_to PairOp.fmax_d = Reg.f
pair_to PairOp.feq_d = Reg.x
pair_to PairOp.flt_d = Reg.x
pair_to PairOp.fle_d = Reg.x

abbrev pub pair_instr : PairOp → Rd → Rs1 → Rs2 → Instr
pair_instr PairOp.fsgnj_s d a b = rv32_no_e_rv32f (Rv32F.fsgnj_s d a b)
pair_instr PairOp.fsgnjn_s d a b = rv32_no_e_rv32f (Rv32F.fsgnjn_s d a b)
pair_instr PairOp.fsgnjx_s d a b = rv32_no_e_rv32f (Rv32F.fsgnjx_s d a b)
pair_instr PairOp.fmin_s d a b = rv32_no_e_rv32f (Rv32F.fmin_s d a b)
pair_instr PairOp.fmax_s d a b = rv32_no_e_rv32f (Rv32F.fmax_s d a b)
pair_instr PairOp.feq_s d a b = rv32_no_e_rv32f (Rv32F.feq_s d a b)
pair_instr PairOp.flt_s d a b = rv32_no_e_rv32f (Rv32F.flt_s d a b)
pair_instr PairOp.fle_s d a b = rv32_no_e_rv32f (Rv32F.fle_s d a b)
pair_instr PairOp.fsgnj_d d a b = rv32_no_e_rv32d (Rv32D.fsgnj_d d a b)
pair_instr PairOp.fsgnjn_d d a b = rv32_no_e_rv32d (Rv32D.fsgnjn_d d a b)
pair_instr PairOp.fsgnjx_d d a b = rv32_no_e_rv32d (Rv32D.fsgnjx_d d a b)
pair_instr PairOp.fmin_d d a b = rv32_no_e_rv32d (Rv32D.fmin_d d a b)
pair_instr PairOp.fmax_d d a b = rv32_no_e_rv32d (Rv32D.fmax_d d a b)
pair_instr PairOp.feq_d d a b = rv32_no_e_rv32d (Rv32D.feq_d d a b)
pair_instr PairOp.flt_d d a b = rv32_no_e_rv32d (Rv32D.flt_d d a b)
pair_instr PairOp.fle_d d a b = rv32_no_e_rv32d (Rv32D.fle_d d a b)

-- One source, no rounding mode; the code is in `funct3`.
pub data MoveOp : Type 0 where
  fmv_x_w fclass_s fmv_w_x fmv_x_d fclass_d fmv_d_x : MoveOp

abbrev pub move_code : MoveOp → FloatCode
move_code MoveOp.fmv_x_w = float_sub 0b1110000 0
move_code MoveOp.fclass_s = float_sub 0b1110000 1
move_code MoveOp.fmv_w_x = float_sub 0b1111000 0
move_code MoveOp.fmv_x_d = float_sub 0b1110001 0
move_code MoveOp.fclass_d = float_sub 0b1110001 1
move_code MoveOp.fmv_d_x = float_sub 0b1111001 0

abbrev pub move_to : MoveOp → Xx 32 → Reg
move_to MoveOp.fmv_x_w = Reg.x
move_to MoveOp.fclass_s = Reg.x
move_to MoveOp.fmv_w_x = Reg.f
move_to MoveOp.fmv_x_d = Reg.x
move_to MoveOp.fclass_d = Reg.x
move_to MoveOp.fmv_d_x = Reg.f

abbrev pub move_from : MoveOp → Xx 32 → Reg
move_from MoveOp.fmv_x_w = Reg.f
move_from MoveOp.fclass_s = Reg.f
move_from MoveOp.fmv_w_x = Reg.x
move_from MoveOp.fmv_x_d = Reg.f
move_from MoveOp.fclass_d = Reg.f
move_from MoveOp.fmv_d_x = Reg.x

abbrev pub move_instr : MoveOp → Rd → Rs1 → Instr
move_instr MoveOp.fmv_x_w d a = rv32_no_e_rv32f (Rv32F.fmv_x_w d a)
move_instr MoveOp.fclass_s d a = rv32_no_e_rv32f (Rv32F.fclass_s d a)
move_instr MoveOp.fmv_w_x d a = rv32_no_e_rv32f (Rv32F.fmv_w_x d a)
move_instr MoveOp.fmv_x_d d a = rv64_no_e_rv64d (Rv64D.fmv_x_d d a)
move_instr MoveOp.fclass_d d a = rv32_no_e_rv32d (Rv32D.fclass_d d a)
move_instr MoveOp.fmv_d_x d a = rv64_no_e_rv64d (Rv64D.fmv_d_x d a)

-- An instruction with its operands.
pub data FloatMisc : Type 0 where
  convert : ConvertOp → RoundingMode → (d a : ℕ) → FloatMisc
  pair : PairOp → (d a b : ℕ) → FloatMisc
  move : MoveOp → (d a : ℕ) → FloatMisc

abbrev pub AreRegisters : FloatMisc → Type 0
AreRegisters (FloatMisc.convert op mode d a) = (d < 32) × (a < 32)
AreRegisters (FloatMisc.pair op d a b) = (d < 32) × (a < 32) × (b < 32)
AreRegisters (FloatMisc.move op d a) = (d < 32) × (a < 32)

-- opcode 7, rd 5, funct3 3, rs1 5, rs2 5, funct7 7 bits
abbrev pub op_fp_word : ℕ → ℕ → ℕ → ℕ → ℕ → ℕ
op_fp_word f7 f3 r2 d a =
    0b1010011 + d * 2 ^ 7 + f3 * 2 ^ 12 + a * 2 ^ 15 + r2 * 2 ^ 20 + f7 * 2 ^ 25

abbrev pub misc_word : FloatMisc → ℕ
misc_word (FloatMisc.convert op mode d a) =
    op_fp_word (convert_code op).funct7 (mode_code mode) (convert_code op).sub d a
misc_word (FloatMisc.pair op d a b) = op_fp_word (pair_code op).funct7 (pair_code op).sub b d a
misc_word (FloatMisc.move op d a) = op_fp_word (move_code op).funct7 (move_code op).sub 0 d a

abbrev pub misc_instr : FloatMisc → Instr
misc_instr (FloatMisc.convert op mode d a) =
    convert_instr op (Rd.reg (convert_to op (Xx.xx d))) (Rs1.reg (convert_from op (Xx.xx a))) mode
misc_instr (FloatMisc.pair op d a b) =
    pair_instr op (Rd.reg (pair_to op (Xx.xx d))) (Rs1.reg (Reg.f (Xx.xx a)))
      (Rs2.reg (Reg.f (Xx.xx b)))
misc_instr (FloatMisc.move op d a) =
    move_instr op (Rd.reg (move_to op (Xx.xx d))) (Rs1.reg (move_from op (Xx.xx a)))
