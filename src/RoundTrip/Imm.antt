-- ===== src/RoundTrip/Imm.antt =====
-- Instructions with a 12-bit immediate.
use double_jit_vm.Prelude.{ℕ, ◌%◌, ◌^◌, ◌<◌, ◌≡◌, some, arith}
use double_jit_vm.Prelude.Outcome.{ok}
use double_jit_vm.Word.{bits_at, sign_extend}
use double_jit_vm.Instr.Operand.{Reg, Rd, Rs1, Imm32}
use double_jit_vm.Field.{funct3, itype_immediate}
use double_jit_vm.Field.Laws.{funct3_lem, itype_immediate_lem}
use double_jit_vm.Isa.Words.{i_word}
use double_jit_vm.Isa.ImmOps.{ImmOp, imm_code, imm_instr}
use double_jit_vm.Compressed.Quadrants.{x_rd, x_rs1}
use double_jit_vm.Decode.Config.{Config}
use double_jit_vm.Decode.Format.Laws.{reg_at, i_format_lem}
use double_jit_vm.Decode.Base.{jalr_arms, load_arms}
use double_jit_vm.Decode.OpImm.{op_imm_alu, op_imm_unary, op_imm_single, op_imm32_alu, op_imm32_bit}
use double_jit_vm.Decode.Parse.{opcode_arms, parse_op_imm, parse_op_imm32, fence_arms, parse_word}
use double_jit_vm.Decode.Full.{parse_word-eq-arms}

opcode_arms-imm :
    (cfg : Config) (op : ImmOp) (w : ℕ)
    → funct3 w ≡ (imm_code op).funct3
    → opcode_arms cfg w (imm_code op).opcode
      ≡ ok (
          some (
            imm_instr cfg op
              (Rd.reg (reg_at Reg.x w 7))
              (Rs1.reg (reg_at Reg.x w 15))
              (Imm32.imm (itype_immediate w))))
unfolding opcode_arms parse_op_imm parse_op_imm32 fence_arms
opcode_arms-imm cfg ImmOp.jalr w h3 = rw (h3) (
    unfold jalr_arms load_arms op_imm_alu op_imm_unary op_imm_single op_imm32_alu op_imm32_bit in
    simp i_format_lem)
opcode_arms-imm cfg _ w h3 = rw (h3) (
    unfold jalr_arms load_arms op_imm_alu op_imm_unary op_imm_single op_imm32_alu op_imm32_bit in
    simp i_format_lem)

imm_code_low :
    (op : ImmOp)
    → ((imm_code op).opcode % 4 ≡ 3) × ((imm_code op).opcode < 128) × ((imm_code op).funct3 < 8)
imm_code_low ImmOp.jalr = omega arith
imm_code_low _ = omega arith

-- The word of LB, LH, LW, LBU, LHU, LWU, LD, ADDI, SLTI, SLTIU, XORI, ORI, ANDI, ADDIW, JALR or FENCE.I
-- decodes to that instruction, with its 12-bit immediate sign-extended to 32 bits.
pub parse_word-i_word :
    (cfg : Config) (op : ImmOp) (d a imm : ℕ)
    → d < 32
    → a < 32
    → imm < 2 ^ 12
    → parse_word cfg (i_word (imm_code op) d a imm)
      ≡ ok (imm_instr cfg op (x_rd d) (x_rs1 a) (Imm32.imm (sign_extend 12 imm)))
parse_word-i_word cfg op d a imm hd ha hi =
    let low = imm_code_low op in
    let w = i_word (imm_code op) d a imm in
    let field3 : funct3 w ≡ (imm_code op).funct3 = omega (arith, funct3_lem w) in
    let at7 : bits_at w 7 5 ≡ d = omega arith in
    let at15 : bits_at w 15 5 ≡ a = omega arith in
    let top : bits_at w 20 12 ≡ imm = omega arith in
    rw (
      parse_word-eq-arms cfg w (imm_code op).opcode (omega arith) low.0,
      opcode_arms-imm cfg op w field3,
      at7,
      at15,
      itype_immediate_lem w (omega arith),
      top,
    )
