-- ===== src/Isa/ShiftOps.antt =====
-- The shifts and rotations by a constant of the manuals.
use double_jit_vm.Isa.Words.{Code, code}
use double_jit_vm.Instr.{Instr}
use double_jit_vm.Instr.Operand.{Rd, Rs1, Shamt}
use double_jit_vm.Instr.Base64.{Rv64I}
use double_jit_vm.Instr.System.{Rvb}
use double_jit_vm.Decode.Config.{Config, rv64, rv64_no_e_rvb}

-- Shifts of RV64I and the rotation of B: six bits of function code over a shift amount of six bits.
pub data ShiftOp : Type 0 where
  slli srli srai rori : ShiftOp

abbrev pub shift_code : ShiftOp → Code
shift_code ShiftOp.slli = code 0b0010011 0b000000 0b001
shift_code ShiftOp.srli = code 0b0010011 0b000000 0b101
shift_code ShiftOp.srai = code 0b0010011 0b010000 0b101
shift_code ShiftOp.rori = code 0b0010011 0b011000 0b101

abbrev pub shift_instr : Config → ShiftOp → Rd → Rs1 → Shamt → Instr
shift_instr cfg ShiftOp.slli d a b = rv64 cfg (Rv64I.slli d a b)
shift_instr cfg ShiftOp.srli d a b = rv64 cfg (Rv64I.srli d a b)
shift_instr cfg ShiftOp.srai d a b = rv64 cfg (Rv64I.srai d a b)
shift_instr cfg ShiftOp.rori d a b = rv64_no_e_rvb (Rvb.rori d a b)

-- Shifts and the rotation of a 32-bit word: seven bits of function code over a shift amount of five bits.
pub data WordShiftOp : Type 0 where
  slliw srliw sraiw roriw : WordShiftOp

abbrev pub word_shift_code : WordShiftOp → Code
word_shift_code WordShiftOp.slliw = code 0b0011011 0b0000000 0b001
word_shift_code WordShiftOp.srliw = code 0b0011011 0b0000000 0b101
word_shift_code WordShiftOp.sraiw = code 0b0011011 0b0100000 0b101
word_shift_code WordShiftOp.roriw = code 0b0011011 0b0110000 0b101

abbrev pub word_shift_instr : Config → WordShiftOp → Rd → Rs1 → Shamt → Instr
word_shift_instr cfg WordShiftOp.slliw d a b = rv64 cfg (Rv64I.slliw d a b)
word_shift_instr cfg WordShiftOp.srliw d a b = rv64 cfg (Rv64I.srliw d a b)
word_shift_instr cfg WordShiftOp.sraiw d a b = rv64 cfg (Rv64I.sraiw d a b)
word_shift_instr cfg WordShiftOp.roriw d a b = rv64_no_e_rvb (Rvb.roriw d a b)
