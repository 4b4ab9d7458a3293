-- ===== src/RoundTrip/Shift.antt =====
-- Shifts and rotations by a constant.
use double_jit_vm.Prelude.{ℕ, ◌+◌, ◌*◌, ◌/◌, ◌%◌, ◌^◌, ◌<◌, ◌≡◌, none, some, arith}
use double_jit_vm.Prelude.Outcome.{ok}
use double_jit_vm.Word.{bits_at}
use double_jit_vm.Instr.Operand.{Reg, Rd, Rs1, Shamt}
use double_jit_vm.Field.{funct3, funct7, rs2}
use double_jit_vm.Field.Laws.{funct3_lem, funct7_lem}
use double_jit_vm.Isa.Words.{r_word, i_word}
use double_jit_vm.Isa.ShiftOps.{
  ShiftOp, shift_code, shift_instr, WordShiftOp, word_shift_code, word_shift_instr,
}
use double_jit_vm.Compressed.Quadrants.{x_rd, x_rs1}
use double_jit_vm.Decode.Config.{Config}
use double_jit_vm.Decode.Format.Laws.{reg_at, r_shamt_format_lem}
use double_jit_vm.Decode.OpImm.{op_imm_alu, op_imm_unary, op_imm_single, op_imm32_alu, op_imm32_bit}
use double_jit_vm.Decode.Parse.{opcode_arms, parse_op_imm, parse_op_imm32, parse_word}
use double_jit_vm.Decode.Full.{parse_word-eq-arms}

-- The instructions of one source, which are tried before the rotation, are none with its code.
unary-rori : (f7 r2 w : ℕ) → f7 / 2 ≡ 24 → op_imm_unary f7 0b101 r2 w ≡ ok none
unfolding op_imm_unary
unary-rori f7 r2 w h = ground arith

opcode_arms-shift :
    (cfg : Config) (op : ShiftOp) (w : ℕ)
    → funct3 w ≡ (shift_code op).funct3
    → funct7 w / 2 ≡ (shift_code op).funct7
    → opcode_arms cfg w (shift_code op).opcode
      ≡ ok (
          some (
            shift_instr cfg op
              (Rd.reg (reg_at Reg.x w 7))
              (Rs1.reg (reg_at Reg.x w 15))
              (Shamt.amount (bits_at w 20 5))))
unfolding opcode_arms parse_op_imm
opcode_arms-shift cfg ShiftOp.slli w h3 h7 =
    rw (h3, h7) (unfold op_imm_alu op_imm_unary op_imm_single in simp r_shamt_format_lem)
opcode_arms-shift cfg ShiftOp.rori w h3 h7 =
    rw (h3, h7)
      (unfold op_imm_alu op_imm_single in
        rw (unary-rori (funct7 w) (rs2 w) w h7) (simp r_shamt_format_lem))
opcode_arms-shift cfg _ w h3 h7 =
    rw (h3, h7) (unfold op_imm_alu op_imm_unary op_imm_single in simp r_shamt_format_lem)

shift_code_low :
    (op : ShiftOp)
    → ((shift_code op).opcode % 4 ≡ 3)
      × ((shift_code op).opcode < 128)
      × ((shift_code op).funct3 < 8)
      × ((shift_code op).funct7 < 64)
shift_code_low ShiftOp.slli = omega arith
shift_code_low _ = omega arith

-- The word of a shift or rotation by a constant of six bits decodes to that instruction by the five low bits of the
-- constant: the amount comes out modulo 32, so only amounts below 32 are right.
pub parse_word-shift :
    (cfg : Config) (op : ShiftOp) (d a amount : ℕ)
    → d < 32
    → a < 32
    → amount < 2 ^ 6
    → parse_word cfg (i_word (shift_code op) d a (amount + (shift_code op).funct7 * 2 ^ 6))
      ≡ ok (shift_instr cfg op (x_rd d) (x_rs1 a) (Shamt.amount (amount % 32)))
parse_word-shift cfg op d a amount hd ha hn =
    let low = shift_code_low op in
    let w = i_word (shift_code op) d a (amount + (shift_code op).funct7 * 2 ^ 6) in
    let field3 : funct3 w ≡ (shift_code op).funct3 = omega (arith, funct3_lem w) in
    let field6 : funct7 w / 2 ≡ (shift_code op).funct7 = omega (arith, funct7_lem w) in
    let at7 : bits_at w 7 5 ≡ d = omega arith in
    let at15 : bits_at w 15 5 ≡ a = omega arith in
    let at20 : bits_at w 20 5 ≡ amount % 32 = omega arith in
    rw (
      parse_word-eq-arms cfg w (shift_code op).opcode (omega arith) low.0,
      opcode_arms-shift cfg op w field3 field6,
      at7,
      at15,
      at20,
    )

opcode_arms-word_shift :
    (cfg : Config) (op : WordShiftOp) (w : ℕ)
    → funct3 w ≡ (word_shift_code op).funct3
    → funct7 w ≡ (word_shift_code op).funct7
    → opcode_arms cfg w (word_shift_code op).opcode
      ≡ ok (
          some (
            word_shift_instr cfg op
              (Rd.reg (reg_at Reg.x w 7))
              (Rs1.reg (reg_at Reg.x w 15))
              (Shamt.amount (bits_at w 20 5))))
unfolding opcode_arms parse_op_imm32
opcode_arms-word_shift cfg WordShiftOp.slliw w h3 h7 =
    rw (h3, h7) (unfold op_imm32_alu op_imm32_bit in simp r_shamt_format_lem)
opcode_arms-word_shift cfg _ w h3 h7 =
    rw (h3, h7) (unfold op_imm32_alu op_imm32_bit in simp r_shamt_format_lem)

word_shift_code_low :
    (op : WordShiftOp)
    → ((word_shift_code op).opcode % 4 ≡ 3)
      × ((word_shift_code op).opcode < 128)
      × ((word_shift_code op).funct3 < 8)
      × ((word_shift_code op).funct7 < 128)
word_shift_code_low WordShiftOp.slliw = omega arith
word_shift_code_low _ = omega arith

-- The word of a 32-bit shift or rotation by a constant of five bits decodes to that instruction by that
-- constant.
pub parse_word-word_shift :
    (cfg : Config) (op : WordShiftOp) (d a amount : ℕ)
    → d < 32
    → a < 32
    → amount < 2 ^ 5
    → parse_word cfg (r_word (word_shift_code op) d a amount)
      ≡ ok (word_shift_instr cfg op (x_rd d) (x_rs1 a) (Shamt.amount amount))
parse_word-word_shift cfg op d a amount hd ha hn =
    let low = word_shift_code_low op in
    let w = r_word (word_shift_code op) d a amount in
    let field3 : funct3 w ≡ (word_shift_code op).funct3 = omega (arith, funct3_lem w) in
    let field7 : funct7 w ≡ (word_shift_code op).funct7 = omega (arith, funct7_lem w) in
    let at7 : bits_at w 7 5 ≡ d = omega arith in
    let at15 : bits_at w 15 5 ≡ a = omega arith in
    let at20 : bits_at w 20 5 ≡ amount = omega arith in
    rw (
      parse_word-eq-arms cfg w (word_shift_code op).opcode (omega arith) low.0,
      opcode_arms-word_shift cfg op w field3 field7,
      at7,
      at15,
      at20,
    )
