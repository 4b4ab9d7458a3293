-- ===== src/Isa/ImmOps.antt =====
-- The instructions of the manuals with a 12-bit immediate or a 13-bit branch offset.
use double_jit_vm.Isa.Words.{Code, code}
use double_jit_vm.Instr.{Instr}
use double_jit_vm.Instr.Operand.{Rd, Rs1, Rs2, Imm32}
use double_jit_vm.Instr.Base32.{Rv32I}
use double_jit_vm.Instr.Base64.{Rv64I}
use double_jit_vm.Instr.System.{RvZifencei}
use double_jit_vm.Decode.Config.{Config, rv32, rv64, rv64_no_e_rvzifencei}

-- Register-immediate instructions, loads, `JALR` and `FENCE.I`.
pub data ImmOp : Type 0 where
  jalr lb lh lw lbu lhu lwu ld addi slti sltiu xori ori andi addiw fence_i : ImmOp

abbrev pub imm_code : ImmOp → Code
imm_code ImmOp.jalr = code 0b1100111 0 0b000
imm_code ImmOp.lb = code 0b0000011 0 0b000
imm_code ImmOp.lh = code 0b0000011 0 0b001
imm_code ImmOp.lw = code 0b0000011 0 0b010
imm_code ImmOp.lbu = code 0b0000011 0 0b100
imm_code ImmOp.lhu = code 0b0000011 0 0b101
imm_code ImmOp.lwu = code 0b0000011 0 0b110
imm_code ImmOp.ld = code 0b0000011 0 0b011
imm_code ImmOp.addi = code 0b0010011 0 0b000
imm_code ImmOp.slti = code 0b0010011 0 0b010
imm_code ImmOp.sltiu = code 0b0010011 0 0b011
imm_code ImmOp.xori = code 0b0010011 0 0b100
imm_code ImmOp.ori = code 0b0010011 0 0b110
imm_code ImmOp.andi = code 0b0010011 0 0b111
imm_code ImmOp.addiw = code 0b0011011 0 0b000
imm_code ImmOp.fence_i = code 0b0001111 0 0b001

abbrev pub imm_instr : Config → ImmOp → Rd → Rs1 → Imm32 11 0 → Instr
imm_instr cfg ImmOp.jalr d a b = rv32 cfg (Rv32I.jalr d a b)
imm_instr cfg ImmOp.lb d a b = rv32 cfg (Rv32I.lb d a b)
imm_instr cfg ImmOp.lh d a b = rv32 cfg (Rv32I.lh d a b)
imm_instr cfg ImmOp.lw d a b = rv32 cfg (Rv32I.lw d a b)
imm_instr cfg ImmOp.lbu d a b = rv32 cfg (Rv32I.lbu d a b)
imm_instr cfg ImmOp.lhu d a b = rv32 cfg (Rv32I.lhu d a b)
imm_instr cfg ImmOp.lwu d a b = rv64 cfg (Rv64I.lwu d a b)
imm_instr cfg ImmOp.ld d a b = rv64 cfg (Rv64I.ld d a b)
imm_instr cfg ImmOp.addi d a b = rv32 cfg (Rv32I.addi d a b)
imm_instr cfg ImmOp.slti d a b = rv32 cfg (Rv32I.slti d a b)
imm_instr cfg ImmOp.sltiu d a b = rv32 cfg (Rv32I.sltiu d a b)
imm_instr cfg ImmOp.xori d a b = rv32 cfg (Rv32I.xori d a b)
imm_instr cfg ImmOp.ori d a b = rv32 cfg (Rv32I.ori d a b)
imm_instr cfg ImmOp.andi d a b = rv32 cfg (Rv32I.andi d a b)
imm_instr cfg ImmOp.addiw d a b = rv64 cfg (Rv64I.addiw d a b)
imm_instr cfg ImmOp.fence_i d a b = rv64_no_e_rvzifencei (RvZifencei.fence_i d a b)

-- Stores: base register, source register, offset.
pub data StoreOp : Type 0 where
  sb sh sw sd : StoreOp

abbrev pub store_code : StoreOp → Code
store_code StoreOp.sb = code 0b0100011 0 0b000
store_code StoreOp.sh = code 0b0100011 0 0b001
store_code StoreOp.sw = code 0b0100011 0 0b010
store_code StoreOp.sd = code 0b0100011 0 0b011

abbrev pub store_instr : Config → StoreOp → Rs1 → Rs2 → Imm32 11 0 → Instr
store_instr cfg StoreOp.sb d a b = rv32 cfg (Rv32I.sb d a b)
store_instr cfg StoreOp.sh d a b = rv32 cfg (Rv32I.sh d a b)
store_instr cfg StoreOp.sw d a b = rv32 cfg (Rv32I.sw d a b)
store_instr cfg StoreOp.sd d a b = rv64 cfg (Rv64I.sd d a b)

-- Conditional branches.
pub data BranchOp : Type 0 where
  beq bne blt bge bltu bgeu : BranchOp

abbrev pub branch_code : BranchOp → Code
branch_code BranchOp.beq = code 0b1100011 0 0b000
branch_code BranchOp.bne = code 0b1100011 0 0b001
branch_code BranchOp.blt = code 0b1100011 0 0b100
branch_code BranchOp.bge = code 0b1100011 0 0b101
branch_code BranchOp.bltu = code 0b1100011 0 0b110
branch_code BranchOp.bgeu = code 0b1100011 0 0b111

abbrev pub branch_instr : Config → BranchOp → Rs1 → Rs2 → Imm32 12 1 → Instr
branch_instr cfg BranchOp.beq d a b = rv32 cfg (Rv32I.beq d a b)
branch_instr cfg BranchOp.bne d a b = rv32 cfg (Rv32I.bne d a b)
branch_instr cfg BranchOp.blt d a b = rv32 cfg (Rv32I.blt d a b)
branch_instr cfg BranchOp.bge d a b = rv32 cfg (Rv32I.bge d a b)
branch_instr cfg BranchOp.bltu d a b = rv32 cfg (Rv32I.bltu d a b)
branch_instr cfg BranchOp.bgeu d a b = rv32 cfg (Rv32I.bgeu d a b)
