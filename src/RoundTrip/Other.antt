-- ===== src/RoundTrip/Other.antt =====
-- Bit counts and extensions, instructions without operands, fences and load reserved.
mod Fences
mod Extension
use double_jit_vm.Prelude.{ℕ, ◌%◌, ◌<◌, ◌≡◌, ◌≢◌, refl, Bool, false, arith, ◌==◌}
use double_jit_vm.Prelude.Outcome.{ok, found}
use double_jit_vm.Word.{bits_at, sign_extend}
use double_jit_vm.Instr.Operand.{Xx, Reg, Rd, Rs, Rs1, Rs2, Aq, Rl, FenceFm, FencePred, FenceSucc}
use double_jit_vm.Field.{slice, slice_back, funct7, funct3, funct5, aq, rl, rs2, itype_immediate}
use double_jit_vm.Field.Laws.{funct7_lem, funct3_lem, funct5_lem, rs2_lem, itype_immediate_lem}
use double_jit_vm.Instr.Base32.{Rv32I}
use double_jit_vm.Isa.Words.{r_word}
use double_jit_vm.Isa.OtherOps.{
  UnaryOp, unary_code, unary_sub, unary_instr, FixedOp, fixed_word, fixed_instr, VmaOp, vma_code,
  vma_instr, OtherInstr, fence_word, LrOp, lr_width, lr_instr, lr_word, other_word, AreOperands,
  other_instr,
}
use double_jit_vm.Decode.Config.{Config, rv32}
use double_jit_vm.Decode.Format.Laws.{
  reg_at, rd_rs_format_lem, rs1_rs2_format_lem, ra_only_rs1_format_lem, fence_format_lem,
}
use double_jit_vm.Decode.OpImm.{op_imm_alu, op_imm_unary, op_imm32_alu, op_imm32_bit}
use double_jit_vm.Decode.System.{system_arms, amo_arms}
use double_jit_vm.Decode.Parse.{opcode_arms, parse_op_imm, parse_op_imm32, fence_arms, parse_word}
use double_jit_vm.RoundTrip.Atomic.{aq_lem, rl_lem, bit_of-lt}
use double_jit_vm.RoundTrip.Other.Extension.{parse_word-zexth}
use double_jit_vm.RoundTrip.Other.Fences.{parse_word-vma, parse_word-fence}
use double_jit_vm.Decode.Full.{parse_word-eq-arms}

opcode_arms-unary :
    (cfg : Config) (op : UnaryOp) (w : ℕ)
    → funct3 w ≡ (unary_code op).funct3
    → funct7 w ≡ (unary_code op).funct7
    → rs2 w ≡ unary_sub op
    → opcode_arms cfg w (unary_code op).opcode
      ≡ found (ok (unary_instr op (Rd.reg (reg_at Reg.x w 7)) (Rs.reg (reg_at Reg.x w 15))))
unfolding opcode_arms parse_op_imm parse_op_imm32
opcode_arms-unary cfg UnaryOp.clz w h3 h7 h2 =
    rw (h3, h7, h2)
      (unfold op_imm_alu op_imm_unary op_imm32_alu op_imm32_bit in simp rd_rs_format_lem)
opcode_arms-unary cfg _ w h3 h7 h2 =
    rw (h3, h7, h2)
      (unfold op_imm_alu op_imm_unary op_imm32_alu op_imm32_bit in simp rd_rs_format_lem)

parse_word-fixed :
    (cfg : Config) (op : FixedOp) → parse_word cfg (fixed_word op) ≡ ok (fixed_instr cfg op)
unfolding opcode_arms system_arms fence_arms funct3 funct7 rs2 itype_immediate slice slice_back
parse_word-fixed cfg FixedOp.ecall =
    rw (parse_word-eq-arms cfg (fixed_word FixedOp.ecall) 0b1110011 refl refl) refl
parse_word-fixed cfg FixedOp.fence_tso =
    rw (parse_word-eq-arms cfg (fixed_word FixedOp.fence_tso) 0b0001111 refl refl) refl
parse_word-fixed cfg FixedOp.pause =
    rw (parse_word-eq-arms cfg (fixed_word FixedOp.pause) 0b0001111 refl refl) refl
parse_word-fixed cfg op = rw (parse_word-eq-arms cfg (fixed_word op) 0b1110011 refl refl) refl

unary_code_low :
    (op : UnaryOp)
    → ((unary_code op).opcode % 4 ≡ 3)
      × ((unary_code op).opcode < 128)
      × ((unary_code op).funct3 < 8)
      × ((unary_code op).funct7 < 128)
      × (unary_sub op < 32)
unary_code_low UnaryOp.clz = omega arith
unary_code_low _ = omega arith

parse_word-unary :
    (cfg : Config) (op : UnaryOp) (d a : ℕ)
    → d < 32
    → a < 32
    → parse_word cfg (other_word (OtherInstr.unary op d a))
      ≡ ok (other_instr cfg (OtherInstr.unary op d a))
parse_word-unary cfg op d a hd ha =
    let low = unary_code_low op in
    let w = r_word (unary_code op) d a (unary_sub op) in
    let field3 : funct3 w ≡ (unary_code op).funct3 = omega (arith, funct3_lem w) in
    let field7 : funct7 w ≡ (unary_code op).funct7 = omega (arith, funct7_lem w) in
    let field2 : rs2 w ≡ unary_sub op = omega (arith, rs2_lem w) in
    let at7 : bits_at w 7 5 ≡ d = omega arith in
    let at15 : bits_at w 15 5 ≡ a = omega arith in
    rw (
      parse_word-eq-arms cfg w (unary_code op).opcode (omega arith) low.0,
      opcode_arms-unary cfg op w field3 field7 field2,
      at7,
      at15,
    )

opcode_arms-lr :
    (cfg : Config) (op : LrOp) (w : ℕ)
    → funct3 w ≡ lr_width op
    → funct5 w ≡ 0b00010
    → opcode_arms cfg w 0b0101111
      ≡ found (
          ok (
            lr_instr op
              (Rd.reg (reg_at Reg.x w 7))
              (Rs1.reg (reg_at Reg.x w 15))
              (Aq.flag (aq w))
              (Rl.flag (rl w))))
unfolding opcode_arms
opcode_arms-lr cfg LrOp.lr_w w h3 h5 = rw (h3, h5) (unfold amo_arms in simp ra_only_rs1_format_lem)
opcode_arms-lr cfg LrOp.lr_d w h3 h5 = rw (h3, h5) (unfold amo_arms in simp ra_only_rs1_format_lem)

lr_width-lt : (op : LrOp) → lr_width op < 8
lr_width-lt LrOp.lr_w = omega arith
lr_width-lt LrOp.lr_d = omega arith

parse_word-lr :
    (cfg : Config) (op : LrOp) (acquire release : Bool) (d a : ℕ)
    → d < 32
    → a < 32
    → parse_word cfg (lr_word op acquire release d a)
      ≡ ok (other_instr cfg (OtherInstr.lr op acquire release d a))
parse_word-lr cfg op acquire release d a hd ha =
    let low = lr_width-lt op in
    let ba = bit_of-lt acquire in
    let br = bit_of-lt release in
    let w = lr_word op acquire release d a in
    let field3 : funct3 w ≡ lr_width op = omega (arith, funct3_lem w) in
    let field5 : funct5 w ≡ 0b00010 = omega (arith, funct5_lem w) in
    let at7 : bits_at w 7 5 ≡ d = omega arith in
    let at15 : bits_at w 15 5 ≡ a = omega arith in
    rw (
      parse_word-eq-arms cfg w 0b0101111 (omega arith) refl,
      opcode_arms-lr cfg op w field3 field5,
      at7,
      at15,
      aq_lem w acquire (omega arith),
      rl_lem w release (omega arith),
    )

-- The word of CLZ, CTZ, CPOP, SEXT.B or SEXT.H, on 64 bits of CLZW, CTZW, CPOPW, ZEXT.H or REV8 in its
-- layout of 64 bits, of a system instruction without operands, of SFENCE.VMA or SINVAL.VMA, of LR, and
-- of a FENCE that is no FENCE.TSO and no PAUSE decodes to it, with its operands in range.
pub parse_word-other_word :
    (cfg : Config) (i : OtherInstr)
    → AreOperands cfg.bit_length i
    → parse_word cfg (other_word i) ≡ ok (other_instr cfg i)
parse_word-other_word cfg (OtherInstr.unary op d a) h = parse_word-unary cfg op d a h.1 h.2
parse_word-other_word cfg (OtherInstr.fixed op) h = parse_word-fixed cfg op
parse_word-other_word cfg (OtherInstr.vma op a b) h = parse_word-vma cfg op a b h.0 h.1
parse_word-other_word cfg (OtherInstr.fence fm pred succ_ d a) h =
    parse_word-fence cfg fm pred succ_ d a h
parse_word-other_word cfg (OtherInstr.zexth d a) h = parse_word-zexth cfg d a h.0 h.1 h.2
parse_word-other_word cfg (OtherInstr.lr op acquire release d a) h =
    parse_word-lr cfg op acquire release d a h.0 h.1
