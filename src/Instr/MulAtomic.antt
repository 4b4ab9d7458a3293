-- ===== src/Instr/MulAtomic.antt =====
-- Multiplication, division and the atomic instructions of src/frontend/instruction.rs.
use double_jit_vm.Instr.Operand.{Rd, Rs1, Rs2, Aq, Rl}

pub data Rv32M : Type 0 where
  mul mulh mulhsu mulhu div divu rem remu : Rd → Rs1 → Rs2 → Rv32M

pub data Rv32A : Type 0 where
  lr_w : Rd → Rs1 → Aq → Rl → Rv32A
  sc_w amoswap_w amoadd_w amoxor_w amoand_w amoor_w amomin_w : Rd → Rs1 → Rs2 → Aq → Rl → Rv32A
  amomax_w amominu_w amomaxu_w : Rd → Rs1 → Rs2 → Aq → Rl → Rv32A

pub data Rv64M : Type 0 where
  mulw divw divuw remw remuw : Rd → Rs1 → Rs2 → Rv64M

pub data Rv64A : Type 0 where
  lr_d : Rd → Rs1 → Aq → Rl → Rv64A
  sc_d amoswap_d amoadd_d amoxor_d amoand_d amoor_d amomin_d : Rd → Rs1 → Rs2 → Aq → Rl → Rv64A
  amomax_d amominu_d amomaxu_d : Rd → Rs1 → Rs2 → Aq → Rl → Rv64A
