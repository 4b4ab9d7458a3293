-- ===== src/Isa/Compressed.antt =====
-- The compressed instructions of the manuals (RV32C and RV64C without the float loads and stores): the layout
-- of each as a sum of its fields, the operands that it allows, and the instruction it stands for.
-- A register of three bits is 8 to 15. `C.BNEZ` and `C.SDSP` are left out: see `Deviations.Stack`.
use double_jit_vm.Prelude.{ℕ, ◌+◌, ◌*◌, ◌%◌, ◌^◌, ◌<◌, ◌≡◌, ◌≢◌}
use double_jit_vm.Word.{sign_extend}
use double_jit_vm.Instr.{Instr}
use double_jit_vm.Instr.Operand.{Imm32, Shamt}
use double_jit_vm.Instr.Base32.{Rv32I}
use double_jit_vm.Instr.Base64.{Rv64I}
use double_jit_vm.Compressed.Quadrants.{x_rd, x_rs1, x_rs2}
use double_jit_vm.Decode.Config.{Config, rv32, rv64}
use double_jit_vm.Isa.Halves.{
  IsPopular, IsNonZero, bit, field, ci_word, cb_word, ca_word, cw_word, cd_word, cr_word, cj_word,
}
use double_jit_vm.Isa.Hints.{Hint, IsHint, hint_half}

-- Immediates are as in the manuals: offsets scaled and unsigned where the manuals say so, else the
-- two's complement number of the field's width.
pub data CInstr : Type 0 where
  addi4spn : ℕ → ℕ → CInstr
  lw ld sw sd : ℕ → ℕ → ℕ → CInstr
  addi li lui addiw : ℕ → ℕ → CInstr
  addi16sp j jal : ℕ → CInstr
  srli srai andi : ℕ → ℕ → CInstr
  sub xor or and subw addw : ℕ → ℕ → CInstr
  beqz : ℕ → ℕ → CInstr
  slli lwsp ldsp swsp mv add : ℕ → ℕ → CInstr
  jr jalr : ℕ → CInstr
  ebreak : CInstr
  hint : Hint → CInstr

-- The width, 0 for 32 bits and 1 for 64 bits, that an instruction belongs to, if not to both. The shifts
-- are named on 64 bits only: on 32 bits the decoder returns the 64-bit ones all the same.
abbrev pub IsAvailable : ℕ → CInstr → Type 0
IsAvailable width (CInstr.jal i) = width ≡ 0
IsAvailable width (CInstr.ld d a i) = width ≡ 1
IsAvailable width (CInstr.sd a b i) = width ≡ 1
IsAvailable width (CInstr.addiw d i) = width ≡ 1
IsAvailable width (CInstr.subw d b) = width ≡ 1
IsAvailable width (CInstr.addw d b) = width ≡ 1
IsAvailable width (CInstr.ldsp d i) = width ≡ 1
IsAvailable width (CInstr.slli d i) = width ≡ 1
IsAvailable width (CInstr.srli d i) = width ≡ 1
IsAvailable width (CInstr.srai d i) = width ≡ 1
IsAvailable width (CInstr.hint (Hint.slli i)) = width ≡ 1
IsAvailable width _ = Unit {0}

-- The operands that the manuals allow, for the shifts those of 64 bits.
abbrev pub IsAllowed : CInstr → Type 0
IsAllowed (CInstr.addi4spn d i) = IsPopular d × (0 < i) × (i < 2 ^ 10) × (i % 4 ≡ 0)
IsAllowed (CInstr.lw d a i) = IsPopular d × IsPopular a × (i < 2 ^ 7) × (i % 4 ≡ 0)
IsAllowed (CInstr.ld d a i) = IsPopular d × IsPopular a × (i < 2 ^ 8) × (i % 8 ≡ 0)
IsAllowed (CInstr.sw a b i) = IsPopular a × IsPopular b × (i < 2 ^ 7) × (i % 4 ≡ 0)
IsAllowed (CInstr.sd a b i) = IsPopular a × IsPopular b × (i < 2 ^ 8) × (i % 8 ≡ 0)
IsAllowed (CInstr.addi d i) = IsNonZero d × (0 < i) × (i < 2 ^ 6)
IsAllowed (CInstr.li d i) = IsNonZero d × (i < 2 ^ 6)
IsAllowed (CInstr.lui d i) = IsNonZero d × (d ≢ 2) × (0 < i) × (i < 2 ^ 6)
IsAllowed (CInstr.addiw d i) = IsNonZero d × (i < 2 ^ 6)
IsAllowed (CInstr.addi16sp i) = (0 < i) × (i < 2 ^ 10) × (i % 16 ≡ 0)
IsAllowed (CInstr.j i) = (i < 2 ^ 12) × (i % 2 ≡ 0)
IsAllowed (CInstr.jal i) = (i < 2 ^ 12) × (i % 2 ≡ 0)
IsAllowed (CInstr.srli d i) = IsPopular d × (0 < i) × (i < 2 ^ 6)
IsAllowed (CInstr.srai d i) = IsPopular d × (0 < i) × (i < 2 ^ 6)
IsAllowed (CInstr.andi d i) = IsPopular d × (i < 2 ^ 6)
IsAllowed (CInstr.sub d b) = IsPopular d × IsPopular b
IsAllowed (CInstr.xor d b) = IsPopular d × IsPopular b
IsAllowed (CInstr.or d b) = IsPopular d × IsPopular b
IsAllowed (CInstr.and d b) = IsPopular d × IsPopular b
IsAllowed (CInstr.subw d b) = IsPopular d × IsPopular b
IsAllowed (CInstr.addw d b) = IsPopular d × IsPopular b
IsAllowed (CInstr.beqz a i) = IsPopular a × (i < 2 ^ 9) × (i % 2 ≡ 0)
IsAllowed (CInstr.slli d i) = IsNonZero d × (0 < i) × (i < 2 ^ 6)
IsAllowed (CInstr.lwsp d i) = IsNonZero d × (i < 2 ^ 8) × (i % 4 ≡ 0)
IsAllowed (CInstr.ldsp d i) = IsNonZero d × (i < 2 ^ 9) × (i % 8 ≡ 0)
IsAllowed (CInstr.swsp b i) = (b < 32) × (i < 2 ^ 8) × (i % 4 ≡ 0)
IsAllowed (CInstr.mv d b) = IsNonZero d × IsNonZero b
IsAllowed (CInstr.add d b) = IsNonZero d × IsNonZero b
IsAllowed (CInstr.jr a) = IsNonZero a
IsAllowed (CInstr.jalr a) = IsNonZero a
IsAllowed CInstr.ebreak = Unit {0}
IsAllowed (CInstr.hint h) = IsHint h

-- The instruction that a compressed instruction stands for.
abbrev pub expand : Config → CInstr → Instr
expand cfg (CInstr.addi4spn d i) = rv32 cfg (Rv32I.addi (x_rd d) (x_rs1 2) (Imm32.imm i))
expand cfg (CInstr.lw d a i) = rv32 cfg (Rv32I.lw (x_rd d) (x_rs1 a) (Imm32.imm i))
expand cfg (CInstr.ld d a i) = rv64 cfg (Rv64I.ld (x_rd d) (x_rs1 a) (Imm32.imm i))
expand cfg (CInstr.sw a b i) = rv32 cfg (Rv32I.sw (x_rs1 a) (x_rs2 b) (Imm32.imm i))
expand cfg (CInstr.sd a b i) = rv64 cfg (Rv64I.sd (x_rs1 a) (x_rs2 b) (Imm32.imm i))
expand cfg (CInstr.addi d i) =
    rv32 cfg (Rv32I.addi (x_rd d) (x_rs1 d) (Imm32.imm (sign_extend 6 i)))
expand cfg (CInstr.li d i) = rv32 cfg (Rv32I.addi (x_rd d) (x_rs1 0) (Imm32.imm (sign_extend 6 i)))
expand cfg (CInstr.lui d i) =
    rv32 cfg (Rv32I.lui (x_rd d) (Imm32.imm (sign_extend 18 (i * 2 ^ 12))))
expand cfg (CInstr.addiw d i) =
    rv64 cfg (Rv64I.addiw (x_rd d) (x_rs1 d) (Imm32.imm (sign_extend 6 i)))
expand cfg (CInstr.addi16sp i) =
    rv32 cfg (Rv32I.addi (x_rd 2) (x_rs1 2) (Imm32.imm (sign_extend 10 i)))
expand cfg (CInstr.j i) = rv32 cfg (Rv32I.jal (x_rd 0) (Imm32.imm (sign_extend 12 i)))
expand cfg (CInstr.jal i) = rv32 cfg (Rv32I.jal (x_rd 1) (Imm32.imm (sign_extend 12 i)))
expand cfg (CInstr.srli d i) = rv64 cfg (Rv64I.srli (x_rd d) (x_rs1 d) (Shamt.amount i))
expand cfg (CInstr.srai d i) = rv64 cfg (Rv64I.srai (x_rd d) (x_rs1 d) (Shamt.amount i))
expand cfg (CInstr.andi d i) =
    rv32 cfg (Rv32I.andi (x_rd d) (x_rs1 d) (Imm32.imm (sign_extend 6 i)))
expand cfg (CInstr.sub d b) = rv32 cfg (Rv32I.sub (x_rd d) (x_rs1 d) (x_rs2 b))
expand cfg (CInstr.xor d b) = rv32 cfg (Rv32I.xor (x_rd d) (x_rs1 d) (x_rs2 b))
expand cfg (CInstr.or d b) = rv32 cfg (Rv32I.or (x_rd d) (x_rs1 d) (x_rs2 b))
expand cfg (CInstr.and d b) = rv32 cfg (Rv32I.and (x_rd d) (x_rs1 d) (x_rs2 b))
expand cfg (CInstr.subw d b) = rv64 cfg (Rv64I.subw (x_rd d) (x_rs1 d) (x_rs2 b))
expand cfg (CInstr.addw d b) = rv64 cfg (Rv64I.addw (x_rd d) (x_rs1 d) (x_rs2 b))
expand cfg (CInstr.beqz a i) =
    rv32 cfg (Rv32I.beq (x_rs1 a) (x_rs2 0) (Imm32.imm (sign_extend 9 i)))
expand cfg (CInstr.slli d i) = rv64 cfg (Rv64I.slli (x_rd d) (x_rs1 d) (Shamt.amount i))
expand cfg (CInstr.lwsp d i) = rv32 cfg (Rv32I.lw (x_rd d) (x_rs1 2) (Imm32.imm i))
expand cfg (CInstr.ldsp d i) = rv64 cfg (Rv64I.ld (x_rd d) (x_rs1 2) (Imm32.imm i))
expand cfg (CInstr.swsp b i) = rv32 cfg (Rv32I.sw (x_rs1 2) (x_rs2 b) (Imm32.imm i))
expand cfg (CInstr.mv d b) = rv32 cfg (Rv32I.add (x_rd d) (x_rs1 0) (x_rs2 b))
expand cfg (CInstr.add d b) = rv32 cfg (Rv32I.add (x_rd d) (x_rs1 d) (x_rs2 b))
expand cfg (CInstr.jr a) = rv32 cfg (Rv32I.jalr (x_rd 0) (x_rs1 a) (Imm32.imm 0))
expand cfg (CInstr.jalr a) = rv32 cfg (Rv32I.jalr (x_rd 1) (x_rs1 a) (Imm32.imm 0))
expand cfg CInstr.ebreak = rv32 cfg Rv32I.ebreak
expand cfg (CInstr.hint _) = Instr.nop

-- The half word of a compressed instruction.
abbrev pub encode : CInstr → ℕ
encode (CInstr.addi4spn d i) =
    d % 8 * 2 ^ 2 + bit 3 i 5 + bit 2 i 6 + field 6 4 i 7 + field 4 2 i 11
encode (CInstr.lw d a i) = cw_word 2 d a i
encode (CInstr.ld d a i) = cd_word 3 d a i
encode (CInstr.sw a b i) = cw_word 6 b a i
encode (CInstr.sd a b i) = cd_word 7 b a i
encode (CInstr.addi d i) = ci_word 1 0 d i
encode (CInstr.addiw d i) = ci_word 1 1 d i
encode (CInstr.li d i) = ci_word 1 2 d i
encode (CInstr.lui d i) = ci_word 1 3 d i
encode (CInstr.addi16sp i) =
    1 + bit 5 i 2 + field 7 2 i 3 + bit 6 i 5 + bit 4 i 6 + 2 * 2 ^ 7 + bit 9 i 12 + 3 * 2 ^ 13
encode (CInstr.srli d i) = cb_word 0 d i
encode (CInstr.srai d i) = cb_word 1 d i
encode (CInstr.andi d i) = cb_word 2 d i
encode (CInstr.sub d b) = ca_word 0 0 d b
encode (CInstr.xor d b) = ca_word 0 1 d b
encode (CInstr.or d b) = ca_word 0 2 d b
encode (CInstr.and d b) = ca_word 0 3 d b
encode (CInstr.subw d b) = ca_word 1 0 d b
encode (CInstr.addw d b) = ca_word 1 1 d b
encode (CInstr.j i) = cj_word 5 i
encode (CInstr.jal i) = cj_word 1 i
encode (CInstr.beqz a i) =
    1
    + bit 5 i 2
    + field 1 2 i 3
    + field 6 2 i 5
    + a % 8 * 2 ^ 7
    + field 3 2 i 10
    + bit 8 i 12
    + 6 * 2 ^ 13
encode (CInstr.slli d i) = ci_word 2 0 d i
encode (CInstr.lwsp d i) = 2 + field 6 2 i 2 + field 2 3 i 4 + d * 2 ^ 7 + bit 5 i 12 + 2 * 2 ^ 13
encode (CInstr.ldsp d i) = 2 + field 6 3 i 2 + field 3 2 i 5 + d * 2 ^ 7 + bit 5 i 12 + 3 * 2 ^ 13
encode (CInstr.swsp b i) = 2 + b * 2 ^ 2 + field 6 2 i 7 + field 2 4 i 9 + 6 * 2 ^ 13
encode (CInstr.jr a) = cr_word 8 a 0
encode (CInstr.mv d b) = cr_word 8 d b
encode CInstr.ebreak = cr_word 9 0 0
encode (CInstr.jalr a) = cr_word 9 a 0
encode (CInstr.add d b) = cr_word 9 d b
encode (CInstr.hint h) = hint_half h
