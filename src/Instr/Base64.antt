-- ===== src/Instr/Base64.antt =====
-- The base integer instructions of src/frontend/instruction.rs that 64 and 128 bits add.
use double_jit_vm.Instr.Operand.{Rd, Rs1, Rs2, Shamt, Imm32}

pub data Rv64I : Type 0 where
  lwu ld : Rd → Rs1 → Imm32 11 0 → Rv64I
  sd : Rs1 → Rs2 → Imm32 11 0 → Rv64I
  slli srli srai : Rd → Rs1 → Shamt → Rv64I
  addiw : Rd → Rs1 → Imm32 11 0 → Rv64I
  slliw srliw sraiw : Rd → Rs1 → Shamt → Rv64I
  addw subw sllw srlw sraw : Rd → Rs1 → Rs2 → Rv64I

pub data Rv64E : Type 0 where
  lwu ld : Rd → Rs1 → Imm32 11 0 → Rv64E
  sd : Rs1 → Rs2 → Imm32 11 0 → Rv64E
  slli srli srai : Rd → Rs1 → Shamt → Rv64E
  addiw : Rd → Rs1 → Imm32 11 0 → Rv64E
  slliw srliw sraiw : Rd → Rs1 → Shamt → Rv64E
  addw subw sllw srlw sraw : Rd → Rs1 → Rs2 → Rv64E

pub data Rv128I : Type 0 where
  ldu ld : Rd → Rs1 → Imm32 11 0 → Rv128I
  sd : Rs1 → Rs2 → Imm32 11 0 → Rv128I
  slli srli srai : Rd → Rs1 → Shamt → Rv128I
  addid : Rd → Rs1 → Imm32 11 0 → Rv128I
  sllid srlid sraid : Rd → Rs1 → Shamt → Rv128I
  addd subd slld srld srad : Rd → Rs1 → Rs2 → Rv128I
