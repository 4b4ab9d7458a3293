-- ===== src/Decode/Typed/Arms.antt =====
-- Every match of `Instruction::parse` in src/frontend/instruction.rs finds typed instructions only.
use double_jit_vm.Prelude.{ℕ}
use double_jit_vm.Prelude.Outcome.{ok}
use double_jit_vm.Instr.{Instr}
use double_jit_vm.Decode.Base.{jalr_arms, load_arms, branch_arms, store_arms}
use double_jit_vm.Decode.OpImm.{op_imm_alu, op_imm_unary, op_imm_single, op_imm32_alu, op_imm32_bit}
use double_jit_vm.Decode.Op.{op_arms, op_mul, op32_arms, op32_bit, op32_mul}
use double_jit_vm.Decode.System.{system_arms, amo_arms}
use double_jit_vm.Decode.Float.{op_fp_arms, fmadd_arms, fmsub_arms, fnmadd_arms, fnmsub_arms}
use double_jit_vm.Decode.Config.{Config}
use double_jit_vm.Decode.Parse.{
  parse_op_imm, parse_op, fence_arms, parse_op32, parse_op_imm32, opcode_arms,
}
use double_jit_vm.Instr.MulAtomic.{Rv32M, Rv32A, Rv64M, Rv64A}
use double_jit_vm.Instr.Float.{Rv32F, Rv32D, Rv64F, Rv64D}
use double_jit_vm.Instr.System.{Rvb, RvPreviledge, RvZcsr, RvZifencei}
use double_jit_vm.Decode.Config.{
  rv32_no_e_rv32m, rv32_no_e_rv32a, rv32_no_e_rv32f, rv32_no_e_rv32d, rv64_no_e_rv64m,
  rv64_no_e_rv64a, rv64_no_e_rv64f, rv64_no_e_rv64d, rv64_no_e_rvb, rv64_no_e_rvzifencei,
  rv64_no_e_rvzcsr, rv64_no_e_rvpreviledge,
}
use double_jit_vm.Decode.Typed.{
  IsTyped, Returns, Finds, either_arm, found-Returns, or_else-Returns, none-Finds, rv32-IsTyped,
  rv64-IsTyped,
}
use double_jit_vm.Decode.Typed.Integer.{IsRv32I, IsRv64I, IsRv32M, IsRv64M, IsRv32A, IsRv64A}
use double_jit_vm.Decode.Typed.Other.{
  IsRv32F, IsRv32D, IsRv64F, IsRv64D, IsRvb, IsRvPreviledge, IsRvZcsr, IsRvZifencei,
}
use double_jit_vm.Decode.Typed.Formats.{
  i_format-IsTyped, b_format-IsTyped, rd_rs_format-IsTyped, rs1_rs2_format-IsTyped,
  r_format-IsTyped, s_format-IsTyped, j_format-IsTyped, u_format-IsTyped, r_shamt_format-IsTyped,
  fence_format-IsTyped, zicsr_rs1_format-IsTyped, zicsr_uimm_format-IsTyped, ra_format-IsTyped,
  ra_only_rs1_format-IsTyped,
}
use double_jit_vm.Decode.Typed.FloatFormats.{
  rrm_format-IsTyped, rrm_no_rs2_format-IsTyped, rrm_no_rs2_format-gp-fp-IsTyped,
  rrm_no_rs2_format-fp-gp-IsTyped, rrm_no_rm_format-IsTyped, rrm_no_rm_format-gp-fp-IsTyped,
  rrm_no_rs2_rm_format-IsTyped, rrm_no_rs2_rm_format-gp-fp-IsTyped,
  rrm_no_rs2_rm_format-fp-gp-IsTyped, r4_format-IsTyped,
}

rv32_no_e_rv32m-IsTyped : (i : Rv32M) → IsRv32M i → IsTyped (rv32_no_e_rv32m i)
unfolding rv32_no_e_rv32m IsTyped
rv32_no_e_rv32m-IsTyped i h = h

rv32_no_e_rv32a-IsTyped : (i : Rv32A) → IsRv32A i → IsTyped (rv32_no_e_rv32a i)
unfolding rv32_no_e_rv32a IsTyped
rv32_no_e_rv32a-IsTyped i h = h

rv32_no_e_rv32f-IsTyped : (i : Rv32F) → IsRv32F i → IsTyped (rv32_no_e_rv32f i)
unfolding rv32_no_e_rv32f IsTyped
rv32_no_e_rv32f-IsTyped i h = h

rv32_no_e_rv32d-IsTyped : (i : Rv32D) → IsRv32D i → IsTyped (rv32_no_e_rv32d i)
unfolding rv32_no_e_rv32d IsTyped
rv32_no_e_rv32d-IsTyped i h = h

rv64_no_e_rv64m-IsTyped : (i : Rv64M) → IsRv64M i → IsTyped (rv64_no_e_rv64m i)
unfolding rv64_no_e_rv64m IsTyped
rv64_no_e_rv64m-IsTyped i h = h

rv64_no_e_rv64a-IsTyped : (i : Rv64A) → IsRv64A i → IsTyped (rv64_no_e_rv64a i)
unfolding rv64_no_e_rv64a IsTyped
rv64_no_e_rv64a-IsTyped i h = h

rv64_no_e_rv64f-IsTyped : (i : Rv64F) → IsRv64F i → IsTyped (rv64_no_e_rv64f i)
unfolding rv64_no_e_rv64f IsTyped
rv64_no_e_rv64f-IsTyped i h = h

rv64_no_e_rv64d-IsTyped : (i : Rv64D) → IsRv64D i → IsTyped (rv64_no_e_rv64d i)
unfolding rv64_no_e_rv64d IsTyped
rv64_no_e_rv64d-IsTyped i h = h

rv64_no_e_rvb-IsTyped : (i : Rvb) → IsRvb i → IsTyped (rv64_no_e_rvb i)
unfolding rv64_no_e_rvb IsTyped
rv64_no_e_rvb-IsTyped i h = h

rv64_no_e_rvzifencei-IsTyped : (i : RvZifencei) → IsRvZifencei i → IsTyped (rv64_no_e_rvzifencei i)
unfolding rv64_no_e_rvzifencei IsTyped
rv64_no_e_rvzifencei-IsTyped i h = h

rv64_no_e_rvzcsr-IsTyped : (i : RvZcsr) → IsRvZcsr i → IsTyped (rv64_no_e_rvzcsr i)
unfolding rv64_no_e_rvzcsr IsTyped
rv64_no_e_rvzcsr-IsTyped i h = h

rv64_no_e_rvpreviledge-IsTyped :
    (i : RvPreviledge) → IsRvPreviledge i → IsTyped (rv64_no_e_rvpreviledge i)
unfolding rv64_no_e_rvpreviledge IsTyped
rv64_no_e_rvpreviledge-IsTyped i h = h

-- An arm without operands.
ok-Returns : (i : Instr) → IsTyped i → Returns IsTyped (ok i)
unfolding Returns
ok-Returns i h = h

ruleset typed = (
  either_arm, found-Returns, ok-Returns, none-Finds, rv32-IsTyped, rv64-IsTyped,
  rv32_no_e_rv32m-IsTyped, rv32_no_e_rv32a-IsTyped, rv32_no_e_rv32f-IsTyped,
  rv32_no_e_rv32d-IsTyped, rv64_no_e_rv64m-IsTyped, rv64_no_e_rv64a-IsTyped,
  rv64_no_e_rv64f-IsTyped, rv64_no_e_rv64d-IsTyped, rv64_no_e_rvb-IsTyped,
  rv64_no_e_rvzifencei-IsTyped, rv64_no_e_rvzcsr-IsTyped, rv64_no_e_rvpreviledge-IsTyped,
  i_format-IsTyped, b_format-IsTyped, rd_rs_format-IsTyped, rs1_rs2_format-IsTyped,
  r_format-IsTyped, s_format-IsTyped, j_format-IsTyped, u_format-IsTyped, r_shamt_format-IsTyped,
  fence_format-IsTyped, zicsr_rs1_format-IsTyped, zicsr_uimm_format-IsTyped, ra_format-IsTyped,
  ra_only_rs1_format-IsTyped, rrm_format-IsTyped, rrm_no_rs2_format-IsTyped,
  rrm_no_rs2_format-gp-fp-IsTyped, rrm_no_rs2_format-fp-gp-IsTyped, rrm_no_rm_format-IsTyped,
  rrm_no_rm_format-gp-fp-IsTyped, rrm_no_rs2_rm_format-IsTyped, rrm_no_rs2_rm_format-gp-fp-IsTyped,
  rrm_no_rs2_rm_format-fp-gp-IsTyped, r4_format-IsTyped,
)

jalr_arms-Finds : (cfg : Config) (a w : ℕ) → Returns (Finds IsTyped) (jalr_arms cfg a w)
unfolding jalr_arms IsRv32I
jalr_arms-Finds cfg a w = search typed depth 120 fits 60000

load_arms-Finds : (cfg : Config) (a w : ℕ) → Returns (Finds IsTyped) (load_arms cfg a w)
unfolding load_arms IsRv32I IsRv64I
load_arms-Finds cfg a w = search typed depth 120 fits 60000

branch_arms-Finds : (cfg : Config) (a w : ℕ) → Returns (Finds IsTyped) (branch_arms cfg a w)
unfolding branch_arms IsRv32I
branch_arms-Finds cfg a w = search typed depth 120 fits 60000

store_arms-Finds : (cfg : Config) (a w : ℕ) → Returns (Finds IsTyped) (store_arms cfg a w)
unfolding store_arms IsRv32I IsRv64I
store_arms-Finds cfg a w = search typed depth 120 fits 60000

op_imm_alu-Finds : (cfg : Config) (a b w : ℕ) → Returns (Finds IsTyped) (op_imm_alu cfg a b w)
unfolding op_imm_alu IsRv32I IsRv64I
op_imm_alu-Finds cfg a b w = search typed depth 120 fits 60000

op_imm_unary-Finds : (a b c w : ℕ) → Returns (Finds IsTyped) (op_imm_unary a b c w)
unfolding op_imm_unary IsRvb
op_imm_unary-Finds a b c w = search typed depth 120 fits 60000

op_imm_single-Finds : (a b w : ℕ) → Returns (Finds IsTyped) (op_imm_single a b w)
unfolding op_imm_single IsRvb
op_imm_single-Finds a b w = search typed depth 120 fits 60000

op_imm32_alu-Finds : (cfg : Config) (a b w : ℕ) → Returns (Finds IsTyped) (op_imm32_alu cfg a b w)
unfolding op_imm32_alu IsRv64I
op_imm32_alu-Finds cfg a b w = search typed depth 120 fits 60000

op_imm32_bit-Finds : (a b c w : ℕ) → Returns (Finds IsTyped) (op_imm32_bit a b c w)
unfolding op_imm32_bit IsRvb
op_imm32_bit-Finds a b c w = search typed depth 120 fits 60000

op_arms-Finds : (cfg : Config) (a b w : ℕ) → Returns (Finds IsTyped) (op_arms cfg a b w)
unfolding op_arms IsRv32I IsRvb
op_arms-Finds cfg a b w = search typed depth 120 fits 60000

op_mul-Finds : (a w : ℕ) → Returns (Finds IsTyped) (op_mul a w)
unfolding op_mul IsRv32M
op_mul-Finds a w = search typed depth 120 fits 60000

op32_arms-Finds : (cfg : Config) (a b w : ℕ) → Returns (Finds IsTyped) (op32_arms cfg a b w)
unfolding op32_arms IsRv64I
op32_arms-Finds cfg a b w = search typed depth 120 fits 60000

op32_bit-Finds : (cfg : Config) (a b w : ℕ) → Returns (Finds IsTyped) (op32_bit cfg a b w)
unfolding op32_bit IsRvb
op32_bit-Finds cfg a b w = search typed depth 120 fits 60000

op32_mul-Finds : (a w : ℕ) → Returns (Finds IsTyped) (op32_mul a w)
unfolding op32_mul IsRv64M
op32_mul-Finds a w = search typed depth 120 fits 60000

system_arms-Finds :
    (cfg : Config) (a b c d w : ℕ) → Returns (Finds IsTyped) (system_arms cfg a b c d w)
unfolding system_arms IsRv32I IsRvPreviledge IsRvZcsr
system_arms-Finds cfg a b c d w = search typed depth 120 fits 60000

amo_arms-Finds : (a b w : ℕ) → Returns (Finds IsTyped) (amo_arms a b w)
unfolding amo_arms IsRv32A IsRv64A
amo_arms-Finds a b w = search typed depth 120 fits 60000

op_fp_arms-Finds : (a b c w : ℕ) → Returns (Finds IsTyped) (op_fp_arms a b c w)
unfolding op_fp_arms IsRv32F IsRv32D IsRv64F IsRv64D
op_fp_arms-Finds a b c w = search typed depth 120 fits 60000

fmadd_arms-Finds : (a w : ℕ) → Returns (Finds IsTyped) (fmadd_arms a w)
unfolding fmadd_arms IsRv32F IsRv32D
fmadd_arms-Finds a w = search typed depth 120 fits 60000

fmsub_arms-Finds : (a w : ℕ) → Returns (Finds IsTyped) (fmsub_arms a w)
unfolding fmsub_arms IsRv32F IsRv32D
fmsub_arms-Finds a w = search typed depth 120 fits 60000

fnmadd_arms-Finds : (a w : ℕ) → Returns (Finds IsTyped) (fnmadd_arms a w)
unfolding fnmadd_arms IsRv32F IsRv32D
fnmadd_arms-Finds a w = search typed depth 120 fits 60000

fnmsub_arms-Finds : (a w : ℕ) → Returns (Finds IsTyped) (fnmsub_arms a w)
unfolding fnmsub_arms IsRv32F IsRv32D
fnmsub_arms-Finds a w = search typed depth 120 fits 60000

-- The matches that try another one if they find no arm.
parse_op_imm-Finds : (cfg : Config) (w : ℕ) → Returns (Finds IsTyped) (parse_op_imm cfg w)
unfolding parse_op_imm
parse_op_imm-Finds cfg w =
    search (or_else-Returns, op_imm_alu-Finds, op_imm_unary-Finds, op_imm_single-Finds)

parse_op-Finds : (cfg : Config) (w : ℕ) → Returns (Finds IsTyped) (parse_op cfg w)
unfolding parse_op
parse_op-Finds cfg w = search (or_else-Returns, op_arms-Finds, op_mul-Finds)

fence_arms-Finds : (cfg : Config) (w a : ℕ) → Returns (Finds IsTyped) (fence_arms cfg w a)
unfolding fence_arms IsRv32I IsRvZifencei
fence_arms-Finds cfg w a = search typed depth 12

parse_op32-Finds : (cfg : Config) (w : ℕ) → Returns (Finds IsTyped) (parse_op32 cfg w)
unfolding parse_op32
parse_op32-Finds cfg w = search (or_else-Returns, op32_arms-Finds, op32_bit-Finds, op32_mul-Finds)

parse_op_imm32-Finds : (cfg : Config) (w : ℕ) → Returns (Finds IsTyped) (parse_op_imm32 cfg w)
unfolding parse_op_imm32
parse_op_imm32-Finds cfg w = search (or_else-Returns, op_imm32_alu-Finds, op_imm32_bit-Finds)

pub opcode_arms-Finds :
    (cfg : Config) (w opcode : ℕ) → Returns (Finds IsTyped) (opcode_arms cfg w opcode)
unfolding opcode_arms IsRv32I
opcode_arms-Finds cfg w opcode =
    search
      (
        typed, jalr_arms-Finds, load_arms-Finds, branch_arms-Finds, store_arms-Finds,
        parse_op_imm-Finds, parse_op-Finds, fence_arms-Finds, parse_op32-Finds,
        parse_op_imm32-Finds, system_arms-Finds, amo_arms-Finds, op_fp_arms-Finds, fmadd_arms-Finds,
        fmsub_arms-Finds, fnmadd_arms-Finds, fnmsub_arms-Finds,
      )
      depth 60 fits 20000
