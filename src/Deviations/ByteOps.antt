-- ===== src/Deviations/ByteOps.antt =====
-- ORC.B and the 32-bit layout of REV8.
use double_jit_vm.Prelude.{ℕ, ◌<◌, ◌≡◌, none, refl, arith}
use double_jit_vm.Prelude.Outcome.{ok, panic, unwrap_none, found}
use double_jit_vm.Word.{bits_at}
use double_jit_vm.Instr.Operand.{Reg, Rd, Rs1, Rs2}
use double_jit_vm.Instr.System.{Rvb}
use double_jit_vm.Field.{funct7, funct3, rs2}
use double_jit_vm.Field.Laws.{funct7_lem, funct3_lem, rs2_lem}
use double_jit_vm.Isa.Words.{code, r_word}
use double_jit_vm.Compressed.Quadrants.{x_rd, x_rs1, x_rs2}
use double_jit_vm.Decode.Config.{Config, rv64_no_e_rvb}
use double_jit_vm.Decode.Format.Laws.{reg_at, r_format_lem}
use double_jit_vm.Decode.OpImm.{op_imm_alu, op_imm_unary, op_imm_single}
use double_jit_vm.Decode.Parse.{opcode_arms, parse_op_imm, parse_word}
use double_jit_vm.Decode.Full.{parse_word-eq-arms}

abbrev orcb_word : (d a : ℕ) → ℕ
orcb_word d a = r_word (code 0b0010011 0b0010100 0b101) d a 0b00111

opcode_arms-orcb :
    (cfg : Config) (w : ℕ)
    → funct3 w ≡ 0b101
    → funct7 w ≡ 0b0010100
    → rs2 w ≡ 0b00111
    → opcode_arms cfg w 0b0010011
      ≡ found (
          ok (
            rv64_no_e_rvb (
              Rvb.orcb
                (Rd.reg (reg_at Reg.x w 7))
                (Rs1.reg (reg_at Reg.x w 15))
                (Rs2.reg (reg_at Reg.x w 20)))))
unfolding opcode_arms parse_op_imm
opcode_arms-orcb cfg w h3 h7 h2 =
    rw (h3, h7, h2) (unfold op_imm_alu op_imm_unary in simp r_format_lem)

-- ORC.B has one source. The decoder gives it a second one, which is x7 in every word.
parse_word-orcb :
    (cfg : Config) (d a : ℕ)
    → d < 32
    → a < 32
    → parse_word cfg (orcb_word d a) ≡ ok (rv64_no_e_rvb (Rvb.orcb (x_rd d) (x_rs1 a) (x_rs2 7)))
parse_word-orcb cfg d a hd ha =
    let w = orcb_word d a in
    let at7 : bits_at w 7 5 ≡ d = omega arith in
    let at15 : bits_at w 15 5 ≡ a = omega arith in
    let at20 : bits_at w 20 5 ≡ 7 = omega arith in
    rw (
      parse_word-eq-arms cfg w 0b0010011 (omega arith) refl,
      opcode_arms-orcb cfg w (omega (arith, funct3_lem w)) (omega (arith, funct7_lem w))
          (omega (arith, rs2_lem w)),
      at7,
      at15,
      at20,
    )

abbrev rev8_word : (d a : ℕ) → ℕ
rev8_word d a = r_word (code 0b0010011 0b0110100 0b101) d a 0b11000

opcode_arms-rev8 :
    (cfg : Config) (w : ℕ)
    → funct3 w ≡ 0b101
    → funct7 w ≡ 0b0110100
    → opcode_arms cfg w 0b0010011 ≡ ok none
unfolding opcode_arms parse_op_imm
opcode_arms-rev8 cfg w h3 h7 = rw (h3, h7) (unfold op_imm_alu op_imm_unary op_imm_single in refl)

-- The 32-bit layout of REV8 has no arm, on any width.
parse_word-rev8 :
    (cfg : Config) (d a : ℕ) → d < 32 → a < 32 → parse_word cfg (rev8_word d a) ≡ panic unwrap_none
parse_word-rev8 cfg d a hd ha =
    let w = rev8_word d a in
    rw (
      parse_word-eq-arms cfg w 0b0010011 (omega arith) refl,
      opcode_arms-rev8 cfg w (omega (arith, funct3_lem w)) (omega (arith, funct7_lem w)),
    )
