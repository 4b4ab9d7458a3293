-- ===== src/RoundTrip/Reg.antt =====
-- Register-register instructions.
use double_jit_vm.Prelude.{ℕ, ◌%◌, ◌<◌, ◌≡◌, some, arith}
use double_jit_vm.Prelude.Outcome.{ok}
use double_jit_vm.Word.{bits_at}
use double_jit_vm.Instr.Operand.{Reg, Rd, Rs1, Rs2}
use double_jit_vm.Field.{funct3, funct7}
use double_jit_vm.Field.Laws.{funct3_lem, funct7_lem}
use double_jit_vm.Isa.Words.{r_word}
use double_jit_vm.Isa.RegOps.{RegOp, reg_code, reg_instr}
use double_jit_vm.Compressed.Quadrants.{x_rd, x_rs1, x_rs2}
use double_jit_vm.Decode.Config.{Config}
use double_jit_vm.Decode.Format.Laws.{reg_at, r_format_lem}
use double_jit_vm.Decode.Op.{op_arms, op_mul, op32_arms, op32_bit, op32_mul}
use double_jit_vm.Decode.Parse.{opcode_arms, parse_op, parse_op32, parse_word}
use double_jit_vm.Decode.Full.{parse_word-eq-arms}

opcode_arms-reg :
    (cfg : Config) (op : RegOp) (w : ℕ)
    → funct3 w ≡ (reg_code op).funct3
    → funct7 w ≡ (reg_code op).funct7
    → opcode_arms cfg w (reg_code op).opcode
      ≡ ok (
          some (
            reg_instr cfg op
              (Rd.reg (reg_at Reg.x w 7))
              (Rs1.reg (reg_at Reg.x w 15))
              (Rs2.reg (reg_at Reg.x w 20))))
unfolding opcode_arms parse_op parse_op32
opcode_arms-reg cfg RegOp.add w h3 h7 =
    rw (h3, h7) (unfold op_arms op_mul op32_arms op32_bit op32_mul in simp r_format_lem)
opcode_arms-reg cfg _ w h3 h7 =
    rw (h3, h7) (unfold op_arms op_mul op32_arms op32_bit op32_mul in simp r_format_lem)

pub reg_code_low :
    (op : RegOp)
    → ((reg_code op).opcode % 4 ≡ 3)
      × ((reg_code op).opcode < 128)
      × ((reg_code op).funct3 < 8)
      × ((reg_code op).funct7 < 128)
reg_code_low RegOp.add = omega arith
reg_code_low _ = omega arith

-- The word of a register-register instruction of the base set, the M or the B extension decodes to
-- that instruction over its three registers.
pub parse_word-r_word :
    (cfg : Config) (op : RegOp) (d a b : ℕ)
    → d < 32
    → a < 32
    → b < 32
    → parse_word cfg (r_word (reg_code op) d a b)
      ≡ ok (reg_instr cfg op (x_rd d) (x_rs1 a) (x_rs2 b))
parse_word-r_word cfg op d a b hd ha hb =
    let low = reg_code_low op in
    let w = r_word (reg_code op) d a b in
    let field3 : funct3 w ≡ (reg_code op).funct3 = omega (arith, funct3_lem w) in
    let field7 : funct7 w ≡ (reg_code op).funct7 = omega (arith, funct7_lem w) in
    let at7 : bits_at w 7 5 ≡ d = omega arith in
    let at15 : bits_at w 15 5 ≡ a = omega arith in
    let at20 : bits_at w 20 5 ≡ b = omega arith in
    rw (
      parse_word-eq-arms cfg w (reg_code op).opcode (omega arith) low.0,
      opcode_arms-reg cfg op w field3 field7,
      at7,
      at15,
      at20,
    )
