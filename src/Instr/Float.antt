-- ===== src/Instr/Float.antt =====
-- The floating-point instructions of src/frontend/instruction.rs.
use double_jit_vm.Instr.Operand.{Rd, Rs1, Rs2, Rs3, Imm32, RoundingMode}

pub data Rv32F : Type 0 where
  flw : Rd → Rs1 → Imm32 11 0 → Rv32F
  fsw : Rs1 → Rs2 → Imm32 11 0 → Rv32F
  fmadd_s fmsub_s fnmsub_s fnmadd_s : Rd → Rs1 → Rs2 → Rs3 → RoundingMode → Rv32F
  fadd_s fsub_s fmul_s fdiv_s : Rd → Rs1 → Rs2 → RoundingMode → Rv32F
  fsqrt_s : Rd → Rs1 → RoundingMode → Rv32F
  fsgnj_s fsgnjn_s fsgnjx_s fmin_s fmax_s : Rd → Rs1 → Rs2 → Rv32F
  fcvt_w_s fcvt_wu_s : Rd → Rs1 → RoundingMode → Rv32F
  fmv_x_w : Rd → Rs1 → Rv32F
  feq_s flt_s fle_s : Rd → Rs1 → Rs2 → Rv32F
  fclass_s : Rd → Rs1 → Rv32F
  fcvt_s_w fcvt_s_wu : Rd → Rs1 → RoundingMode → Rv32F
  fmv_w_x : Rd → Rs1 → Rv32F

pub data Rv32D : Type 0 where
  fld : Rd → Rs1 → Imm32 11 0 → Rv32D
  fsd : Rs1 → Rs2 → Imm32 11 0 → Rv32D
  fmadd_d fmsub_d fnmsub_d fnmadd_d : Rd → Rs1 → Rs2 → Rs3 → RoundingMode → Rv32D
  fadd_d fsub_d fmul_d fdiv_d : Rd → Rs1 → Rs2 → RoundingMode → Rv32D
  fsqrt_d : Rd → Rs1 → RoundingMode → Rv32D
  fsgnj_d fsgnjn_d fsgnjx_d fmin_d fmax_d : Rd → Rs1 → Rs2 → Rv32D
  fcvt_s_d fcvt_d_s : Rd → Rs1 → RoundingMode → Rv32D
  feq_d flt_d fle_d : Rd → Rs1 → Rs2 → Rv32D
  fclass_d : Rd → Rs1 → Rv32D
  fcvt_w_d fcvt_wu_d fcvt_d_w fcvt_d_wu : Rd → Rs1 → RoundingMode → Rv32D

pub data Rv64F : Type 0 where
  fcvt_l_s fcvt_lu_s fcvt_s_l fcvt_s_lu : Rd → Rs1 → RoundingMode → Rv64F

pub data Rv64D : Type 0 where
  fcvt_l_d fcvt_lu_d : Rd → Rs1 → RoundingMode → Rv64D
  fmv_x_d : Rd → Rs1 → Rv64D
  fcvt_d_l fcvt_d_lu : Rd → Rs1 → RoundingMode → Rv64D
  fmv_d_x : Rd → Rs1 → Rv64D
