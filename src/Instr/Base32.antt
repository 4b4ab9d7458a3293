-- ===== src/Instr/Base32.antt =====
-- The base integer instructions of src/frontend/instruction.rs on 32 bits, and their copy for the
-- embedded variant.
use double_jit_vm.Instr.Operand.{Rd, Rs1, Rs2, Shamt, Imm32, FenceFm, FencePred, FenceSucc}

pub data Rv32I : Type 0 where
  lui auipc : Rd → Imm32 31 12 → Rv32I
  jal : Rd → Imm32 20 1 → Rv32I
  jalr : Rd → Rs1 → Imm32 11 0 → Rv32I
  beq bne blt bge bltu bgeu : Rs1 → Rs2 → Imm32 12 1 → Rv32I
  lb lh lw lbu lhu : Rd → Rs1 → Imm32 11 0 → Rv32I
  sb sh sw : Rs1 → Rs2 → Imm32 11 0 → Rv32I
  addi slti sltiu xori ori andi : Rd → Rs1 → Imm32 11 0 → Rv32I
  slli srli srai : Rd → Rs1 → Shamt → Rv32I
  add sub sll slt sltu xor srl sra or and : Rd → Rs1 → Rs2 → Rv32I
  fence : Rd → Rs1 → FenceSucc → FencePred → FenceFm → Rv32I
  fence_tso pause ecall ebreak : Rv32I

pub data Rv32E : Type 0 where
  lui auipc : Rd → Imm32 31 12 → Rv32E
  jal : Rd → Imm32 20 1 → Rv32E
  jalr : Rd → Rs1 → Imm32 11 0 → Rv32E
  beq bne blt bge bltu bgeu : Rs1 → Rs2 → Imm32 12 1 → Rv32E
  lb lh lw lbu lhu : Rd → Rs1 → Imm32 11 0 → Rv32E
  sb sh sw : Rs1 → Rs2 → Imm32 11 0 → Rv32E
  addi slti sltiu xori ori andi : Rd → Rs1 → Imm32 11 0 → Rv32E
  slli srli srai : Rd → Rs1 → Shamt → Rv32E
  add sub sll slt sltu xor srl sra or and : Rd → Rs1 → Rs2 → Rv32E
  fence : Rd → Rs1 → FenceSucc → FencePred → FenceFm → Rv32E
  fence_tso pause ecall ebreak : Rv32E
