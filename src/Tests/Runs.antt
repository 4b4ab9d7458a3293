-- ===== src/Tests/Runs.antt =====
-- The unit tests at the end of src/frontend/instruction.rs.
use double_jit_vm.Prelude.{ℕ, ◌≡◌, refl, List, [], ◌∷◌, false}
use double_jit_vm.Prelude.Outcome.{Outcome, ok}
use double_jit_vm.Instr.{Instr, Rv32Instr, Rv64Instr}
use double_jit_vm.Instr.Operand.{Xx, Reg, Rs, Aq, Rl, Shamt, Imm32}
use double_jit_vm.Instr.Base32.{Rv32I}
use double_jit_vm.Instr.Base64.{Rv64I}
use double_jit_vm.Instr.MulAtomic.{Rv64A}
use double_jit_vm.Instr.System.{Rvb, RvPreviledge}
use double_jit_vm.Compressed.Quadrants.{x_rd, x_rs1, x_rs2}
use double_jit_vm.Compressed.{compressed_arms, try_from_compressed}
use double_jit_vm.Field.{
  slice, slice_back, funct2, funct3, funct5, funct7, aq, rl, rd, rs1, rs2, rs3, shamt,
  btype_immediate, jtype_immediate, itype_immediate, stype_immediate,
}
use double_jit_vm.Decode.Config.{
  Config, rv32, rv64, rv64_no_e_rvb, rv64_no_e_rv64a, rv64_no_e_rvpreviledge,
}
use double_jit_vm.Decode.Format.{
  gp, to_u8, operand, i_format, rd_rs_format, rs1_rs2_format, s_format, u_format, r_shamt_format,
  ra_format,
}
use double_jit_vm.Decode.Base.{store_arms}
use double_jit_vm.Decode.OpImm.{op_imm_alu, op_imm32_alu, op_imm32_bit}
use double_jit_vm.Decode.System.{system_arms, amo_arms}
use double_jit_vm.Decode.Parse.{
  parse_op_imm, fence_arms, parse_op_imm32, opcode_arms, parse_full, parse_word, le_word, parse,
}

-- `BIT_LENGTH` and `IS_E` as the tests find them.
abbrev pub initial : Config
initial = record { bit_length = 0; is_e = false }

-- The whole decoder, open.
run : List ℕ → Outcome Instr
unfolding parse le_word parse_word parse_full opcode_arms parse_op_imm fence_arms parse_op_imm32
    store_arms op_imm_alu op_imm32_alu op_imm32_bit system_arms amo_arms try_from_compressed
    compressed_arms gp to_u8 operand i_format rd_rs_format rs1_rs2_format s_format u_format
    r_shamt_format ra_format slice slice_back funct2 funct3 funct5 funct7 aq rl rd rs1 rs2 rs3 shamt
    btype_immediate jtype_immediate itype_immediate stype_immediate rv32 rv64 rv64_no_e_rvb
    rv64_no_e_rv64a rv64_no_e_rvpreviledge
run = parse initial

-- 0b11101101100000011000000110010011
test_rvi_addi :
    run (0x93 ∷ 0x81 ∷ 0x81 ∷ 0xed ∷ [])
    ≡ ok (Instr.rv32 (Rv32Instr.rv32i (Rv32I.addi (x_rd 3) (x_rs1 3) (Imm32.imm 4294967000))))
unfolding run
test_rvi_addi = refl

-- 0b11011000010111
test_rvi_auipc :
    run (0x17 ∷ 0x36 ∷ 0x00 ∷ 0x00 ∷ [])
    ≡ ok (Instr.rv32 (Rv32Instr.rv32i (Rv32I.auipc (x_rd 12) (Imm32.imm 0))))
unfolding run
test_rvi_auipc = refl

-- 0b1100000000001010001110000011011
test_rvb_clzw :
    run (0x1b ∷ 0x1c ∷ 0x05 ∷ 0x60 ∷ [])
    ≡ ok (Instr.rv64 (Rv64Instr.rvb (Rvb.clzw (x_rd 24) (Rs.reg (Reg.x (Xx.xx 10))))))
unfolding run
test_rvb_clzw = refl

-- 0b100010111100010011110000100011
test_rvs_sd :
    run (0x23 ∷ 0x3c ∷ 0xf1 ∷ 0x22 ∷ [])
    ≡ ok (Instr.rv64 (Rv64Instr.rv64i (Rv64I.sd (x_rs1 2) (x_rs2 15) (Imm32.imm 568))))
unfolding run
test_rvs_sd = refl

test_pause : run (0x0f ∷ 0x00 ∷ 0x00 ∷ 0x01 ∷ []) ≡ ok (Instr.rv32 (Rv32Instr.rv32i Rv32I.pause))
unfolding run
test_pause = refl

-- 0b101001000011010010101111
test_rva_amoadd :
    run (0xaf ∷ 0x34 ∷ 0xa4 ∷ 0x00 ∷ [])
    ≡ ok (
        Instr.rv64 (
          Rv64Instr.rv64a
            (Rv64A.amoadd_d (x_rd 9) (x_rs1 8) (x_rs2 10) (Aq.flag false) (Rl.flag false))))
unfolding run
test_rva_amoadd = refl

-- 0b1000011100001111101010010010011
test_rvi_shamt_srai :
    run (0x93 ∷ 0xd4 ∷ 0x87 ∷ 0x43 ∷ [])
    ≡ ok (Instr.rv64 (Rv64Instr.rv64i (Rv64I.srai (x_rd 9) (x_rs1 15) (Shamt.amount 24))))
unfolding run
test_rvi_shamt_srai = refl

-- 0b10010000000000000000001110011
test_rvp_sfence :
    run (0x73 ∷ 0x00 ∷ 0x00 ∷ 0x12 ∷ [])
    ≡ ok (Instr.rv64 (Rv64Instr.rvpreviledge (RvPreviledge.sfence_vma (x_rs1 0) (x_rs2 0))))
unfolding run
test_rvp_sfence = refl
