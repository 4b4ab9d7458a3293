-- ===== src/RoundTrip/Control.antt =====
-- Stores, branches and jumps: the formats that scatter their offset.
use double_jit_vm.Prelude.{ℕ, ◌+◌, ◌*◌, ◌%◌, ◌^◌, ◌<◌, ◌≡◌, refl, some, arith}
use double_jit_vm.Prelude.Outcome.{ok}
use double_jit_vm.Word.{bits_at, sign_extend}
use double_jit_vm.Instr.Operand.{Reg, Rs1, Rs2, Imm32}
use double_jit_vm.Instr.Base32.{Rv32I}
use double_jit_vm.Field.{funct3, btype_immediate, stype_immediate}
use double_jit_vm.Field.Laws.{
  funct3_lem, stype_immediate_lem, btype_immediate_lem, jtype_immediate_lem,
}
use double_jit_vm.Isa.Words.{s_word, b_word, j_word}
use double_jit_vm.Isa.ImmOps.{StoreOp, store_code, store_instr, BranchOp, branch_code, branch_instr}
use double_jit_vm.Compressed.Quadrants.{x_rd, x_rs1, x_rs2}
use double_jit_vm.Decode.Config.{Config, rv32}
use double_jit_vm.Decode.Format.Laws.{reg_at, s_format_lem, b_format_lem, j_format_lem}
use double_jit_vm.Decode.Base.{branch_arms, store_arms}
use double_jit_vm.Decode.Parse.{opcode_arms, parse_word}
use double_jit_vm.Decode.Full.{parse_word-eq-arms}

opcode_arms-store :
    (cfg : Config) (op : StoreOp) (w : ℕ)
    → funct3 w ≡ (store_code op).funct3
    → opcode_arms cfg w (store_code op).opcode
      ≡ ok (
          some (
            store_instr cfg op
              (Rs1.reg (reg_at Reg.x w 15))
              (Rs2.reg (reg_at Reg.x w 20))
              (Imm32.imm (stype_immediate w))))
unfolding opcode_arms
opcode_arms-store cfg StoreOp.sb w h3 = rw (h3) (unfold store_arms in simp s_format_lem)
opcode_arms-store cfg _ w h3 = rw (h3) (unfold store_arms in simp s_format_lem)

store_code_low :
    (op : StoreOp)
    → ((store_code op).opcode % 4 ≡ 3)
      × ((store_code op).opcode < 128)
      × ((store_code op).funct3 < 8)
store_code_low StoreOp.sb = omega arith
store_code_low _ = omega arith

-- The word of SB, SH, SW or SD decodes to that store, with the two parts of its 12-bit offset joined
-- and sign-extended.
pub parse_word-s_word :
    (cfg : Config) (op : StoreOp) (a b imm : ℕ)
    → a < 32
    → b < 32
    → imm < 2 ^ 12
    → parse_word cfg (s_word (store_code op) a b imm)
      ≡ ok (store_instr cfg op (x_rs1 a) (x_rs2 b) (Imm32.imm (sign_extend 12 imm)))
parse_word-s_word cfg op a b imm ha hb hi =
    let low = store_code_low op in
    let w = s_word (store_code op) a b imm in
    let field3 : funct3 w ≡ (store_code op).funct3 = omega (arith, funct3_lem w) in
    let at15 : bits_at w 15 5 ≡ a = omega arith in
    let at20 : bits_at w 20 5 ≡ b = omega arith in
    let joined : bits_at w 7 5 + bits_at w 25 7 * 2 ^ 5 ≡ imm = omega arith in
    rw (
      parse_word-eq-arms cfg w (store_code op).opcode (omega arith) low.0,
      opcode_arms-store cfg op w field3,
      at15,
      at20,
      stype_immediate_lem w (omega arith),
      joined,
    )

opcode_arms-branch :
    (cfg : Config) (op : BranchOp) (w : ℕ)
    → funct3 w ≡ (branch_code op).funct3
    → opcode_arms cfg w (branch_code op).opcode
      ≡ ok (
          some (
            branch_instr cfg op
              (Rs1.reg (reg_at Reg.x w 15))
              (Rs2.reg (reg_at Reg.x w 20))
              (Imm32.imm (btype_immediate w))))
unfolding opcode_arms
opcode_arms-branch cfg BranchOp.beq w h3 = rw (h3) (unfold branch_arms in simp b_format_lem)
opcode_arms-branch cfg _ w h3 = rw (h3) (unfold branch_arms in simp b_format_lem)

branch_code_low :
    (op : BranchOp)
    → ((branch_code op).opcode % 4 ≡ 3)
      × ((branch_code op).opcode < 128)
      × ((branch_code op).funct3 < 8)
branch_code_low BranchOp.beq = omega arith
branch_code_low _ = omega arith

-- The word of a conditional branch decodes to that branch, with the four parts of its even 13-bit
-- offset joined in the right order and sign-extended.
pub parse_word-b_word :
    (cfg : Config) (op : BranchOp) (a b offset : ℕ)
    → a < 32
    → b < 32
    → offset < 2 ^ 13
    → offset % 2 ≡ 0
    → parse_word cfg (b_word (branch_code op) a b offset)
      ≡ ok (branch_instr cfg op (x_rs1 a) (x_rs2 b) (Imm32.imm (sign_extend 13 offset)))
parse_word-b_word cfg op a b offset ha hb hi even =
    let low = branch_code_low op in
    let w = b_word (branch_code op) a b offset in
    let field3 : funct3 w ≡ (branch_code op).funct3 = omega (arith, funct3_lem w) in
    let at15 : bits_at w 15 5 ≡ a = omega arith in
    let at20 : bits_at w 20 5 ≡ b = omega arith in
    let joined : bits_at w 8 4 * 2
          + bits_at w 25 6 * 2 ^ 5
          + bits_at w 7 1 * 2 ^ 11
          + bits_at w 31 1 * 2 ^ 12
        ≡ offset =
      omega arith in
    rw (
      parse_word-eq-arms cfg w (branch_code op).opcode (omega arith) low.0,
      opcode_arms-branch cfg op w field3,
      at15,
      at20,
      btype_immediate_lem w (omega arith),
      joined,
    )

-- The word of `JAL` decodes to `JAL`, with the four parts of its even 21-bit offset joined in the
-- right order and sign-extended.
pub parse_word-j_word :
    (cfg : Config) (d offset : ℕ)
    → d < 32
    → offset < 2 ^ 21
    → offset % 2 ≡ 0
    → parse_word cfg (j_word 0b1101111 d offset)
      ≡ ok (rv32 cfg (Rv32I.jal (x_rd d) (Imm32.imm (sign_extend 21 offset))))
unfolding opcode_arms
parse_word-j_word cfg d offset hd hi even =
    let w = j_word 0b1101111 d offset in
    let at7 : bits_at w 7 5 ≡ d = omega arith in
    let joined : bits_at w 21 10 * 2
          + bits_at w 20 1 * 2 ^ 11
          + bits_at w 12 8 * 2 ^ 12
          + bits_at w 31 1 * 2 ^ 20
        ≡ offset =
      omega arith in
    rw (
      parse_word-eq-arms cfg w 0b1101111 (omega arith) refl,
      j_format_lem (rv32 cfg) w Rv32I.jal,
      at7,
      jtype_immediate_lem w (omega arith),
      joined,
    )
