-- ===== src/Decode/Orderly/Arms.antt =====
-- Every match of `Instruction::parse` in src/frontend/instruction.rs ends in order.
use double_jit_vm.Prelude.{ℕ}
use double_jit_vm.Decode.Orderly.{
  IsOrderly, returns, either_arm, found-IsOrderly, or_else-IsOrderly,
}
use double_jit_vm.Decode.Orderly.Formats.{
  i_format-IsOrderly, b_format-IsOrderly, rd_rs_format-IsOrderly, rs1_rs2_format-IsOrderly,
  r_format-IsOrderly, s_format-IsOrderly, j_format-IsOrderly, u_format-IsOrderly,
  r_shamt_format-IsOrderly, fence_format-IsOrderly, zicsr_rs1_format-IsOrderly,
  zicsr_uimm_format-IsOrderly, ra_format-IsOrderly, ra_only_rs1_format-IsOrderly,
  rrm_format-IsOrderly, rrm_format-gp-fp-IsOrderly, rrm_format-fp-gp-IsOrderly,
  rrm_no_rs2_format-IsOrderly, rrm_no_rs2_format-gp-fp-IsOrderly, rrm_no_rs2_format-fp-gp-IsOrderly,
  rrm_no_rm_format-IsOrderly, rrm_no_rm_format-gp-fp-IsOrderly, rrm_no_rm_format-fp-gp-IsOrderly,
  rrm_no_rs2_rm_format-IsOrderly, rrm_no_rs2_rm_format-gp-fp-IsOrderly,
  rrm_no_rs2_rm_format-fp-gp-IsOrderly, r4_format-IsOrderly,
}
use double_jit_vm.Decode.Base.{jalr_arms, load_arms, branch_arms, store_arms}
use double_jit_vm.Decode.OpImm.{op_imm_alu, op_imm_unary, op_imm_single, op_imm32_alu, op_imm32_bit}
use double_jit_vm.Decode.Op.{op_arms, op_mul, op32_arms, op32_bit, op32_mul}
use double_jit_vm.Decode.System.{system_arms, amo_arms}
use double_jit_vm.Decode.Float.{op_fp_arms, fmadd_arms, fmsub_arms, fnmadd_arms, fnmsub_arms}
use double_jit_vm.Decode.Config.{Config}
use double_jit_vm.Decode.Parse.{
  parse_op_imm, parse_op, fence_arms, parse_op32, parse_op_imm32, opcode_arms,
}

ruleset ends = (
  either_arm, found-IsOrderly, returns, i_format-IsOrderly, b_format-IsOrderly,
  rd_rs_format-IsOrderly, rs1_rs2_format-IsOrderly, r_format-IsOrderly, s_format-IsOrderly,
  j_format-IsOrderly, u_format-IsOrderly, r_shamt_format-IsOrderly, fence_format-IsOrderly,
  zicsr_rs1_format-IsOrderly, zicsr_uimm_format-IsOrderly, ra_format-IsOrderly,
  ra_only_rs1_format-IsOrderly, rrm_format-IsOrderly, rrm_format-gp-fp-IsOrderly,
  rrm_format-fp-gp-IsOrderly, rrm_no_rs2_format-IsOrderly, rrm_no_rs2_format-gp-fp-IsOrderly,
  rrm_no_rs2_format-fp-gp-IsOrderly, rrm_no_rm_format-IsOrderly, rrm_no_rm_format-gp-fp-IsOrderly,
  rrm_no_rm_format-fp-gp-IsOrderly, rrm_no_rs2_rm_format-IsOrderly,
  rrm_no_rs2_rm_format-gp-fp-IsOrderly, rrm_no_rs2_rm_format-fp-gp-IsOrderly, r4_format-IsOrderly,
)

jalr_arms-IsOrderly : (cfg : Config) (a w : ℕ) → IsOrderly (jalr_arms cfg a w)
unfolding jalr_arms
jalr_arms-IsOrderly cfg a w = search ends depth 120 fits 60000

load_arms-IsOrderly : (cfg : Config) (a w : ℕ) → IsOrderly (load_arms cfg a w)
unfolding load_arms
load_arms-IsOrderly cfg a w = search ends depth 120 fits 60000

branch_arms-IsOrderly : (cfg : Config) (a w : ℕ) → IsOrderly (branch_arms cfg a w)
unfolding branch_arms
branch_arms-IsOrderly cfg a w = search ends depth 120 fits 60000

store_arms-IsOrderly : (cfg : Config) (a w : ℕ) → IsOrderly (store_arms cfg a w)
unfolding store_arms
store_arms-IsOrderly cfg a w = search ends depth 120 fits 60000

op_imm_alu-IsOrderly : (cfg : Config) (a b w : ℕ) → IsOrderly (op_imm_alu cfg a b w)
unfolding op_imm_alu
op_imm_alu-IsOrderly cfg a b w = search ends depth 120 fits 60000

op_imm_unary-IsOrderly : (a b c w : ℕ) → IsOrderly (op_imm_unary a b c w)
unfolding op_imm_unary
op_imm_unary-IsOrderly a b c w = search ends depth 120 fits 60000

op_imm_single-IsOrderly : (a b w : ℕ) → IsOrderly (op_imm_single a b w)
unfolding op_imm_single
op_imm_single-IsOrderly a b w = search ends depth 120 fits 60000

op_imm32_alu-IsOrderly : (cfg : Config) (a b w : ℕ) → IsOrderly (op_imm32_alu cfg a b w)
unfolding op_imm32_alu
op_imm32_alu-IsOrderly cfg a b w = search ends depth 120 fits 60000

op_imm32_bit-IsOrderly : (a b c w : ℕ) → IsOrderly (op_imm32_bit a b c w)
unfolding op_imm32_bit
op_imm32_bit-IsOrderly a b c w = search ends depth 120 fits 60000

op_arms-IsOrderly : (cfg : Config) (a b w : ℕ) → IsOrderly (op_arms cfg a b w)
unfolding op_arms
op_arms-IsOrderly cfg a b w = search ends depth 120 fits 60000

op_mul-IsOrderly : (a w : ℕ) → IsOrderly (op_mul a w)
unfolding op_mul
op_mul-IsOrderly a w = search ends depth 120 fits 60000

op32_arms-IsOrderly : (cfg : Config) (a b w : ℕ) → IsOrderly (op32_arms cfg a b w)
unfolding op32_arms
op32_arms-IsOrderly cfg a b w = search ends depth 120 fits 60000

op32_bit-IsOrderly : (cfg : Config) (a b w : ℕ) → IsOrderly (op32_bit cfg a b w)
unfolding op32_bit
op32_bit-IsOrderly cfg a b w = search ends depth 120 fits 60000

op32_mul-IsOrderly : (a w : ℕ) → IsOrderly (op32_mul a w)
unfolding op32_mul
op32_mul-IsOrderly a w = search ends depth 120 fits 60000

system_arms-IsOrderly : (cfg : Config) (a b c d w : ℕ) → IsOrderly (system_arms cfg a b c d w)
unfolding system_arms
system_arms-IsOrderly cfg a b c d w = search ends depth 120 fits 60000

amo_arms-IsOrderly : (a b w : ℕ) → IsOrderly (amo_arms a b w)
unfolding amo_arms
amo_arms-IsOrderly a b w = search ends depth 120 fits 60000

op_fp_arms-IsOrderly : (a b c w : ℕ) → IsOrderly (op_fp_arms a b c w)
unfolding op_fp_arms
op_fp_arms-IsOrderly a b c w = search ends depth 120 fits 60000

fmadd_arms-IsOrderly : (a w : ℕ) → IsOrderly (fmadd_arms a w)
unfolding fmadd_arms
fmadd_arms-IsOrderly a w = search ends depth 120 fits 60000

fmsub_arms-IsOrderly : (a w : ℕ) → IsOrderly (fmsub_arms a w)
unfolding fmsub_arms
fmsub_arms-IsOrderly a w = search ends depth 120 fits 60000

fnmadd_arms-IsOrderly : (a w : ℕ) → IsOrderly (fnmadd_arms a w)
unfolding fnmadd_arms
fnmadd_arms-IsOrderly a w = search ends depth 120 fits 60000

fnmsub_arms-IsOrderly : (a w : ℕ) → IsOrderly (fnmsub_arms a w)
unfolding fnmsub_arms
fnmsub_arms-IsOrderly a w = search ends depth 120 fits 60000

-- The matches that try another one if they find no arm.
parse_op_imm-IsOrderly : (cfg : Config) (w : ℕ) → IsOrderly (parse_op_imm cfg w)
unfolding parse_op_imm
parse_op_imm-IsOrderly cfg w =
    search
      (or_else-IsOrderly, op_imm_alu-IsOrderly, op_imm_unary-IsOrderly, op_imm_single-IsOrderly)

parse_op-IsOrderly : (cfg : Config) (w : ℕ) → IsOrderly (parse_op cfg w)
unfolding parse_op
parse_op-IsOrderly cfg w = search (or_else-IsOrderly, op_arms-IsOrderly, op_mul-IsOrderly)

fence_arms-IsOrderly : (cfg : Config) (w a : ℕ) → IsOrderly (fence_arms cfg w a)
unfolding fence_arms
fence_arms-IsOrderly cfg w a = search ends depth 12

parse_op32-IsOrderly : (cfg : Config) (w : ℕ) → IsOrderly (parse_op32 cfg w)
unfolding parse_op32
parse_op32-IsOrderly cfg w =
    search (or_else-IsOrderly, op32_arms-IsOrderly, op32_bit-IsOrderly, op32_mul-IsOrderly)

parse_op_imm32-IsOrderly : (cfg : Config) (w : ℕ) → IsOrderly (parse_op_imm32 cfg w)
unfolding parse_op_imm32
parse_op_imm32-IsOrderly cfg w =
    search (or_else-IsOrderly, op_imm32_alu-IsOrderly, op_imm32_bit-IsOrderly)

pub opcode_arms-IsOrderly : (cfg : Config) (w opcode : ℕ) → IsOrderly (opcode_arms cfg w opcode)
unfolding opcode_arms
opcode_arms-IsOrderly cfg w opcode =
    search
      (
        ends, jalr_arms-IsOrderly, load_arms-IsOrderly, branch_arms-IsOrderly, store_arms-IsOrderly,
        parse_op_imm-IsOrderly, parse_op-IsOrderly, fence_arms-IsOrderly, parse_op32-IsOrderly,
        parse_op_imm32-IsOrderly, system_arms-IsOrderly, amo_arms-IsOrderly, op_fp_arms-IsOrderly,
        fmadd_arms-IsOrderly, fmsub_arms-IsOrderly, fnmadd_arms-IsOrderly, fnmsub_arms-IsOrderly,
      )
      depth 60 fits 20000
