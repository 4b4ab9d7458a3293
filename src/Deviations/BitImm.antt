-- ===== src/Deviations/BitImm.antt =====
-- The bit manipulation instructions with a constant: the formats that src/frontend/instruction.rs
-- reads them by are those of a 12-bit immediate and of three registers.
use double_jit_vm.Prelude.{ℕ, ◌+◌, ◌*◌, ◌/◌, ◌%◌, ◌^◌, ◌<◌, ◌≡◌, none, some, false, ◌==◌, arith}
use double_jit_vm.Prelude.Outcome.{ok}
use double_jit_vm.Word.{bits_at, sign_extend}
use double_jit_vm.Instr.{Instr}
use double_jit_vm.Instr.Operand.{Reg, Rd, Rs1, Rs2, Imm32}
use double_jit_vm.Instr.System.{Rvb}
use double_jit_vm.Field.{funct3, funct7, rs2, itype_immediate}
use double_jit_vm.Field.Laws.{funct3_lem, funct7_lem, itype_immediate_lem}
use double_jit_vm.Isa.Words.{i_word}
use double_jit_vm.Isa.BitOps.{BitOp, bit_code, bit_decoded}
use double_jit_vm.Compressed.Quadrants.{x_rd, x_rs1}
use double_jit_vm.Decode.Config.{Config, rv64_no_e_rvb}
use double_jit_vm.Decode.Format.Laws.{reg_at, i_format_lem, r_format_lem}
use double_jit_vm.Decode.OpImm.{op_imm_alu, op_imm_unary, op_imm_single, op_imm32_alu, op_imm32_bit}
use double_jit_vm.Decode.Parse.{opcode_arms, parse_op_imm, parse_op_imm32, parse_word}
use double_jit_vm.Decode.Full.{parse_word-eq-arms}

bit_code_low :
    (op : BitOp)
    → ((bit_code op).opcode % 4 ≡ 3)
      × ((bit_code op).opcode < 128)
      × ((bit_code op).funct3 < 8)
      × ((bit_code op).funct7 < 32)
bit_code_low BitOp.bclri = omega arith
bit_code_low _ = omega arith

-- What the formats read off a word.
abbrev bit_read : BitOp → ℕ → Instr
bit_read BitOp.bclri w = rv64_no_e_rvb (
    Rvb.bclri (Rd.reg (reg_at Reg.x w 7)) (Rs1.reg (reg_at Reg.x w 15))
      (Imm32.imm (itype_immediate w)))
bit_read BitOp.bexti w = rv64_no_e_rvb (
    Rvb.bexti (Rd.reg (reg_at Reg.x w 7)) (Rs1.reg (reg_at Reg.x w 15))
      (Imm32.imm (itype_immediate w)))
bit_read BitOp.binvi w = rv64_no_e_rvb (
    Rvb.binvi (Rd.reg (reg_at Reg.x w 7)) (Rs1.reg (reg_at Reg.x w 15))
      (Imm32.imm (itype_immediate w)))
bit_read BitOp.bseti w = rv64_no_e_rvb (
    Rvb.bseti (Rd.reg (reg_at Reg.x w 7)) (Rs1.reg (reg_at Reg.x w 15))
      (Imm32.imm (itype_immediate w)))
bit_read BitOp.slliuw w = rv64_no_e_rvb (
    Rvb.slliuw (Rd.reg (reg_at Reg.x w 7)) (Rs1.reg (reg_at Reg.x w 15))
      (Rs2.reg (reg_at Reg.x w 20)))

-- The matches before the one that reads a bit number find nothing.
op_imm_unary-bit :
    (op : BitOp) (f7 r2 w : ℕ)
    → f7 / 2 ≡ (bit_code op).funct7
    → op_imm_unary f7 (bit_code op).funct3 r2 w ≡ ok none
unfolding op_imm_unary
op_imm_unary-bit BitOp.bclri f7 r2 w h = ground arith
op_imm_unary-bit _ f7 r2 w h = ground arith

op_imm32_alu-bit :
    (cfg : Config) (f7 w : ℕ)
    → f7 / 2 ≡ (bit_code BitOp.slliuw).funct7
    → op_imm32_alu cfg (bit_code BitOp.slliuw).funct3 f7 w ≡ ok none
unfolding op_imm32_alu
op_imm32_alu-bit cfg f7 w h = ground arith

op_imm32_bit-slliuw :
    (f7 r2 w : ℕ)
    → f7 / 2 ≡ (bit_code BitOp.slliuw).funct7
    → op_imm32_bit (bit_code BitOp.slliuw).funct3 f7 r2 w ≡ ok (some (bit_read BitOp.slliuw w))
unfolding op_imm32_bit
op_imm32_bit-slliuw f7 r2 w h =
    let other : (f7 == 0b0110000) ≡ false = ground arith in rw (other, h) (simp r_format_lem)

opcode_arms-bit :
    (cfg : Config) (op : BitOp) (w : ℕ)
    → funct3 w ≡ (bit_code op).funct3
    → funct7 w / 2 ≡ (bit_code op).funct7
    → opcode_arms cfg w (bit_code op).opcode ≡ ok (some (bit_read op w))
unfolding opcode_arms parse_op_imm parse_op_imm32
opcode_arms-bit cfg BitOp.slliuw w h3 h7 =
    rw (h3, op_imm32_alu-bit cfg (funct7 w) w h7, op_imm32_bit-slliuw (funct7 w) (rs2 w) w h7)
opcode_arms-bit cfg BitOp.bclri w h3 h7 =
    rw (h3, h7, op_imm_unary-bit BitOp.bclri (funct7 w) (rs2 w) w h7)
      (unfold op_imm_alu op_imm_single in simp i_format_lem)
opcode_arms-bit cfg BitOp.bexti w h3 h7 =
    rw (h3, h7, op_imm_unary-bit BitOp.bexti (funct7 w) (rs2 w) w h7)
      (unfold op_imm_alu op_imm_single in simp i_format_lem)
opcode_arms-bit cfg BitOp.binvi w h3 h7 =
    rw (h3, h7, op_imm_unary-bit BitOp.binvi (funct7 w) (rs2 w) w h7)
      (unfold op_imm_alu op_imm_single in simp i_format_lem)
opcode_arms-bit cfg BitOp.bseti w h3 h7 =
    rw (h3, h7, op_imm_unary-bit BitOp.bseti (funct7 w) (rs2 w) w h7)
      (unfold op_imm_alu op_imm_single in simp i_format_lem)

bit_read_lem :
    (op : BitOp) (w n : ℕ)
    → w < 2 ^ 32
    → n < 64
    → bits_at w 20 12 ≡ n + (bit_code op).funct7 * 2 ^ 6
    → bit_read op w ≡ bit_decoded op (Rd.reg (reg_at Reg.x w 7)) (Rs1.reg (reg_at Reg.x w 15)) n
bit_read_lem BitOp.slliuw w n hw hn h =
    let amount : bits_at w 20 5 ≡ n % 32 = omega arith in rw amount
bit_read_lem BitOp.bclri w n hw hn h =
    let small : sign_extend 12 (n + 0b010010 * 2 ^ 6) ≡ n + 0b010010 * 2 ^ 6 = ground arith in
    rw (itype_immediate_lem w hw, h, small)
bit_read_lem BitOp.bexti w n hw hn h =
    let small : sign_extend 12 (n + 0b010010 * 2 ^ 6) ≡ n + 0b010010 * 2 ^ 6 = ground arith in
    rw (itype_immediate_lem w hw, h, small)
bit_read_lem BitOp.binvi w n hw hn h =
    let small : sign_extend 12 (n + 0b011010 * 2 ^ 6) ≡ n + 0b011010 * 2 ^ 6 = ground arith in
    rw (itype_immediate_lem w hw, h, small)
bit_read_lem BitOp.bseti w n hw hn h =
    let small : sign_extend 12 (n + 0b001010 * 2 ^ 6) ≡ n + 0b001010 * 2 ^ 6 = ground arith in
    rw (itype_immediate_lem w hw, h, small)

-- The word of BCLRI, BEXTI, BINVI or BSETI for the bit `n` decodes to that instruction with `n` and
-- the function code of six bits above it as its immediate; the word of SLLI.UW by `n` decodes to an
-- instruction over the register of number `n` modulo 32.
pub parse_word-bit_word :
    (cfg : Config) (op : BitOp) (d a n : ℕ)
    → d < 32
    → a < 32
    → n < 64
    → parse_word cfg (i_word (bit_code op) d a (n + (bit_code op).funct7 * 2 ^ 6))
      ≡ ok (bit_decoded op (x_rd d) (x_rs1 a) n)
parse_word-bit_word cfg op d a n hd ha hn =
    let low = bit_code_low op in
    let w = i_word (bit_code op) d a (n + (bit_code op).funct7 * 2 ^ 6) in
    let field3 : funct3 w ≡ (bit_code op).funct3 = omega (arith, funct3_lem w) in
    let field6 : funct7 w / 2 ≡ (bit_code op).funct7 = omega (arith, funct7_lem w) in
    let at7 : bits_at w 7 5 ≡ d = omega arith in
    let at15 : bits_at w 15 5 ≡ a = omega arith in
    let top : bits_at w 20 12 ≡ n + (bit_code op).funct7 * 2 ^ 6 = omega arith in
    rw (
      parse_word-eq-arms cfg w (bit_code op).opcode (omega arith) low.0,
      opcode_arms-bit cfg op w field3 field6,
      bit_read_lem op w n (omega arith) hn top,
      at7,
      at15,
    )
