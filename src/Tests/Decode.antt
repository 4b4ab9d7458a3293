-- ===== src/Tests/Decode.antt =====
-- The theorems on the 32-bit decoder at concrete inputs.
use double_jit_vm.Prelude.{◌≡◌, refl, true, false, arith}
use double_jit_vm.Prelude.Outcome.{ok}
use double_jit_vm.Instr.Operand.{
  Imm32, Shamt, Aq, Rl, CsrAddr, UImm, RoundingMode, csr_value, uimm_value,
}
use double_jit_vm.Isa.Words.{r_word, i_word, s_word, b_word, j_word}
use double_jit_vm.Isa.RegOps.{RegOp, reg_code, reg_instr}
use double_jit_vm.Isa.ImmOps.{
  ImmOp, imm_code, imm_instr, StoreOp, store_code, store_instr, BranchOp, branch_code, branch_instr,
}
use double_jit_vm.Isa.ShiftOps.{
  ShiftOp, shift_code, shift_instr, WordShiftOp, word_shift_code, word_shift_instr,
}
use double_jit_vm.Isa.SystemOps.{AmoOp, amo_instr, CsrImmOp, CsrAccess, access_code, access_instr}
use double_jit_vm.Isa.FloatOps.{FloatOp, float_instr, FmaOp, fma_instr}
use double_jit_vm.Instr.Base32.{Rv32I}
use double_jit_vm.Compressed.Quadrants.{x_rd, x_rs1, x_rs2}
use double_jit_vm.Decode.Config.{Config, rv32}
use double_jit_vm.Decode.Parse.{parse_word}
use double_jit_vm.RoundTrip.Reg.{parse_word-r_word}
use double_jit_vm.RoundTrip.Imm.{parse_word-i_word}
use double_jit_vm.RoundTrip.Control.{parse_word-s_word, parse_word-b_word, parse_word-j_word}
use double_jit_vm.RoundTrip.Shift.{parse_word-shift, parse_word-word_shift}
use double_jit_vm.RoundTrip.Atomic.{amo_word, parse_word-amo_word}
use double_jit_vm.RoundTrip.Csr.{parse_word-csr_word}
use double_jit_vm.RoundTrip.Float.{f_rd, f_rs1, f_rs2, f_rs3, float_word, parse_word-float_word}
use double_jit_vm.Isa.FloatConvert.{ConvertOp}
use double_jit_vm.Isa.FloatMisc.{FloatMisc, misc_word, misc_instr}
use double_jit_vm.Isa.OtherOps.{OtherInstr, other_word, other_instr}
use double_jit_vm.RoundTrip.FloatMisc.{parse_word-misc_word}
use double_jit_vm.RoundTrip.Other.{parse_word-other_word}
use double_jit_vm.RoundTrip.Fma.{fma_word, parse_word-fma_word}

abbrev pub rv64gc : Config
rv64gc = record { bit_length = 1; is_e = false }

parse_word-r_word_example :
    parse_word rv64gc (r_word (reg_code RegOp.sub) 5 6 31)
    ≡ ok (reg_instr rv64gc RegOp.sub (x_rd 5) (x_rs1 6) (x_rs2 31))
parse_word-r_word_example =
    parse_word-r_word rv64gc RegOp.sub 5 6 31 (omega arith) (omega arith) (omega arith)

parse_word-i_word_example :
    parse_word rv64gc (i_word (imm_code ImmOp.addi) 3 3 0xed8)
    ≡ ok (imm_instr rv64gc ImmOp.addi (x_rd 3) (x_rs1 3) (Imm32.imm 4294967000))
parse_word-i_word_example =
    parse_word-i_word rv64gc ImmOp.addi 3 3 0xed8 (omega arith) (omega arith) (omega arith)

parse_word-s_word_example :
    parse_word rv64gc (s_word (store_code StoreOp.sd) 2 15 568)
    ≡ ok (store_instr rv64gc StoreOp.sd (x_rs1 2) (x_rs2 15) (Imm32.imm 568))
parse_word-s_word_example =
    parse_word-s_word rv64gc StoreOp.sd 2 15 568 (omega arith) (omega arith) (omega arith)

parse_word-b_word_example :
    parse_word rv64gc (b_word (branch_code BranchOp.bne) 10 11 0x1ffc)
    ≡ ok (branch_instr rv64gc BranchOp.bne (x_rs1 10) (x_rs2 11) (Imm32.imm 0xfffffffc))
parse_word-b_word_example =
    parse_word-b_word rv64gc BranchOp.bne 10 11 0x1ffc (omega arith) (omega arith) (omega arith)
      refl

parse_word-j_word_example :
    parse_word rv64gc (j_word 0b1101111 1 0x800)
    ≡ ok (rv32 rv64gc (Rv32I.jal (x_rd 1) (Imm32.imm 0x800)))
parse_word-j_word_example = parse_word-j_word rv64gc 1 0x800 (omega arith) (omega arith) refl

-- A shift by 40 comes out as a shift by 8.
parse_word-shift_example :
    parse_word rv64gc (i_word (shift_code ShiftOp.slli) 7 8 40)
    ≡ ok (shift_instr rv64gc ShiftOp.slli (x_rd 7) (x_rs1 8) (Shamt.amount 8))
parse_word-shift_example =
    parse_word-shift rv64gc ShiftOp.slli 7 8 40 (omega arith) (omega arith) (omega arith)

parse_word-word_shift_example :
    parse_word rv64gc (r_word (word_shift_code WordShiftOp.sraiw) 7 8 31)
    ≡ ok (word_shift_instr rv64gc WordShiftOp.sraiw (x_rd 7) (x_rs1 8) (Shamt.amount 31))
parse_word-word_shift_example =
    parse_word-word_shift rv64gc WordShiftOp.sraiw 7 8 31 (omega arith) (omega arith) (omega arith)

parse_word-amo_word_example :
    parse_word rv64gc (amo_word AmoOp.amoadd_d true false 9 8 10)
    ≡ ok (
        amo_instr rv64gc AmoOp.amoadd_d
          (x_rd 9)
          (x_rs1 8)
          (x_rs2 10)
          (Aq.flag true)
          (Rl.flag false))
parse_word-amo_word_example =
    parse_word-amo_word rv64gc AmoOp.amoadd_d true false 9 8 10 (omega arith) (omega arith)
      (omega arith)

parse_word-csr_word_example :
    (parse_word rv64gc (i_word (access_code (CsrAccess.immediate CsrImmOp.csrrwi)) 5 17 0xc00)
      ≡ ok (
          access_instr rv64gc
            (CsrAccess.immediate CsrImmOp.csrrwi)
            (x_rd 5)
            (x_rs1 17)
            (UImm.value (Imm32.imm 17))
            (CsrAddr.addr (Imm32.imm 0xfffffc00))))
    × (uimm_value (UImm.value (Imm32.imm 17)) ≡ 17)
    × (csr_value (CsrAddr.addr (Imm32.imm 0xfffffc00)) ≡ 0xc00)
parse_word-csr_word_example =
    parse_word-csr_word rv64gc (CsrAccess.immediate CsrImmOp.csrrwi) 5 17 0xc00 (omega arith)
      (omega arith) (omega arith)

parse_word-float_word_example :
    parse_word rv64gc (float_word FloatOp.fdiv_d RoundingMode.dyn 1 2 3)
    ≡ ok (float_instr rv64gc FloatOp.fdiv_d (f_rd 1) (f_rs1 2) (f_rs2 3) RoundingMode.dyn)
parse_word-float_word_example =
    parse_word-float_word rv64gc FloatOp.fdiv_d RoundingMode.dyn 1 2 3 (omega arith) (omega arith)
      (omega arith)

parse_word-fma_word_example :
    parse_word rv64gc (fma_word FmaOp.fnmsub_s RoundingMode.rtz 1 2 3 4)
    ≡ ok (fma_instr rv64gc FmaOp.fnmsub_s (f_rd 1) (f_rs1 2) (f_rs2 3) (f_rs3 4) RoundingMode.rtz)
parse_word-fma_word_example =
    parse_word-fma_word rv64gc FmaOp.fnmsub_s RoundingMode.rtz 1 2 3 4 (omega arith) (omega arith)
      (omega arith) (omega arith)

parse_word-misc_word_example :
    parse_word rv64gc (misc_word (FloatMisc.convert ConvertOp.fcvt_wu_d RoundingMode.rtz 10 3))
    ≡ ok (misc_instr (FloatMisc.convert ConvertOp.fcvt_wu_d RoundingMode.rtz 10 3))
parse_word-misc_word_example =
    parse_word-misc_word rv64gc (FloatMisc.convert ConvertOp.fcvt_wu_d RoundingMode.rtz 10 3)
      (omega arith, omega arith)

parse_word-other_word_example :
    parse_word rv64gc (other_word (OtherInstr.fence 0 3 1 0 0))
    ≡ ok (other_instr rv64gc (OtherInstr.fence 0 3 1 0 0))
parse_word-other_word_example =
    parse_word-other_word rv64gc (OtherInstr.fence 0 3 1 0 0)
      (omega arith, omega arith, omega arith, omega arith, omega arith, omega arith, omega arith)
