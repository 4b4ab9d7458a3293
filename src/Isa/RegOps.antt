-- ===== src/Isa/RegOps.antt =====
-- The register-register instructions of the manuals: RV32I/RV64I, M, and the B extension.
use double_jit_vm.Isa.Words.{Code, code}
use double_jit_vm.Instr.{Instr}
use double_jit_vm.Instr.Operand.{Rd, Rs1, Rs2}
use double_jit_vm.Instr.Base32.{Rv32I}
use double_jit_vm.Instr.Base64.{Rv64I}
use double_jit_vm.Instr.MulAtomic.{Rv32M, Rv64M}
use double_jit_vm.Instr.System.{Rvb}
use double_jit_vm.Decode.Config.{
  Config, rv32, rv64, rv32_no_e_rv32m, rv64_no_e_rv64m, rv64_no_e_rvb,
}

pub data RegOp : Type 0 where
  add sub sll slt sltu xor srl sra or and mul mulh mulhsu mulhu div divu rem remu : RegOp
  andn orn xnor rol ror binv bset bclr bext sh1add sh2add sh3add clmul clmulr clmulh : RegOp
  min minu max maxu addw subw sllw srlw sraw mulw divw divuw remw remuw adduw rolw : RegOp
  rorw sh1adduw sh2adduw sh3adduw : RegOp

-- The opcode, `funct7` and `funct3` of the manuals.
abbrev pub reg_code : RegOp → Code
reg_code RegOp.add = code 0b0110011 0b0000000 0b000
reg_code RegOp.sub = code 0b0110011 0b0100000 0b000
reg_code RegOp.sll = code 0b0110011 0b0000000 0b001
reg_code RegOp.slt = code 0b0110011 0b0000000 0b010
reg_code RegOp.sltu = code 0b0110011 0b0000000 0b011
reg_code RegOp.xor = code 0b0110011 0b0000000 0b100
reg_code RegOp.srl = code 0b0110011 0b0000000 0b101
reg_code RegOp.sra = code 0b0110011 0b0100000 0b101
reg_code RegOp.or = code 0b0110011 0b0000000 0b110
reg_code RegOp.and = code 0b0110011 0b0000000 0b111
reg_code RegOp.mul = code 0b0110011 0b0000001 0b000
reg_code RegOp.mulh = code 0b0110011 0b0000001 0b001
reg_code RegOp.mulhsu = code 0b0110011 0b0000001 0b010
reg_code RegOp.mulhu = code 0b0110011 0b0000001 0b011
reg_code RegOp.div = code 0b0110011 0b0000001 0b100
reg_code RegOp.divu = code 0b0110011 0b0000001 0b101
reg_code RegOp.rem = code 0b0110011 0b0000001 0b110
reg_code RegOp.remu = code 0b0110011 0b0000001 0b111
reg_code RegOp.andn = code 0b0110011 0b0100000 0b111
reg_code RegOp.orn = code 0b0110011 0b0100000 0b110
reg_code RegOp.xnor = code 0b0110011 0b0100000 0b100
reg_code RegOp.rol = code 0b0110011 0b0110000 0b001
reg_code RegOp.ror = code 0b0110011 0b0110000 0b101
reg_code RegOp.binv = code 0b0110011 0b0110100 0b001
reg_code RegOp.bset = code 0b0110011 0b0010100 0b001
reg_code RegOp.bclr = code 0b0110011 0b0100100 0b001
reg_code RegOp.bext = code 0b0110011 0b0100100 0b101
reg_code RegOp.sh1add = code 0b0110011 0b0010000 0b010
reg_code RegOp.sh2add = code 0b0110011 0b0010000 0b100
reg_code RegOp.sh3add = code 0b0110011 0b0010000 0b110
reg_code RegOp.clmul = code 0b0110011 0b0000101 0b001
reg_code RegOp.clmulr = code 0b0110011 0b0000101 0b010
reg_code RegOp.clmulh = code 0b0110011 0b0000101 0b011
reg_code RegOp.min = code 0b0110011 0b0000101 0b100
reg_code RegOp.minu = code 0b0110011 0b0000101 0b101
reg_code RegOp.max = code 0b0110011 0b0000101 0b110
reg_code RegOp.maxu = code 0b0110011 0b0000101 0b111
reg_code RegOp.addw = code 0b0111011 0b0000000 0b000
reg_code RegOp.subw = code 0b0111011 0b0100000 0b000
reg_code RegOp.sllw = code 0b0111011 0b0000000 0b001
reg_code RegOp.srlw = code 0b0111011 0b0000000 0b101
reg_code RegOp.sraw = code 0b0111011 0b0100000 0b101
reg_code RegOp.mulw = code 0b0111011 0b0000001 0b000
reg_code RegOp.divw = code 0b0111011 0b0000001 0b100
reg_code RegOp.divuw = code 0b0111011 0b0000001 0b101
reg_code RegOp.remw = code 0b0111011 0b0000001 0b110
reg_code RegOp.remuw = code 0b0111011 0b0000001 0b111
reg_code RegOp.adduw = code 0b0111011 0b0000100 0b000
reg_code RegOp.rolw = code 0b0111011 0b0110000 0b001
reg_code RegOp.rorw = code 0b0111011 0b0110000 0b101
reg_code RegOp.sh1adduw = code 0b0111011 0b0010000 0b010
reg_code RegOp.sh2adduw = code 0b0111011 0b0010000 0b100
reg_code RegOp.sh3adduw = code 0b0111011 0b0010000 0b110

-- The instruction that the mnemonic names.
abbrev pub reg_instr : Config → RegOp → Rd → Rs1 → Rs2 → Instr
reg_instr cfg RegOp.add d a b = rv32 cfg (Rv32I.add d a b)
reg_instr cfg RegOp.sub d a b = rv32 cfg (Rv32I.sub d a b)
reg_instr cfg RegOp.sll d a b = rv32 cfg (Rv32I.sll d a b)
reg_instr cfg RegOp.slt d a b = rv32 cfg (Rv32I.slt d a b)
reg_instr cfg RegOp.sltu d a b = rv32 cfg (Rv32I.sltu d a b)
reg_instr cfg RegOp.xor d a b = rv32 cfg (Rv32I.xor d a b)
reg_instr cfg RegOp.srl d a b = rv32 cfg (Rv32I.srl d a b)
reg_instr cfg RegOp.sra d a b = rv32 cfg (Rv32I.sra d a b)
reg_instr cfg RegOp.or d a b = rv32 cfg (Rv32I.or d a b)
reg_instr cfg RegOp.and d a b = rv32 cfg (Rv32I.and d a b)
reg_instr cfg RegOp.mul d a b = rv32_no_e_rv32m (Rv32M.mul d a b)
reg_instr cfg RegOp.mulh d a b = rv32_no_e_rv32m (Rv32M.mulh d a b)
reg_instr cfg RegOp.mulhsu d a b = rv32_no_e_rv32m (Rv32M.mulhsu d a b)
reg_instr cfg RegOp.mulhu d a b = rv32_no_e_rv32m (Rv32M.mulhu d a b)
reg_instr cfg RegOp.div d a b = rv32_no_e_rv32m (Rv32M.div d a b)
reg_instr cfg RegOp.divu d a b = rv32_no_e_rv32m (Rv32M.divu d a b)
reg_instr cfg RegOp.rem d a b = rv32_no_e_rv32m (Rv32M.rem d a b)
reg_instr cfg RegOp.remu d a b = rv32_no_e_rv32m (Rv32M.remu d a b)
reg_instr cfg RegOp.andn d a b = rv64_no_e_rvb (Rvb.andn d a b)
reg_instr cfg RegOp.orn d a b = rv64_no_e_rvb (Rvb.orn d a b)
reg_instr cfg RegOp.xnor d a b = rv64_no_e_rvb (Rvb.xnor d a b)
reg_instr cfg RegOp.rol d a b = rv64_no_e_rvb (Rvb.rol d a b)
reg_instr cfg RegOp.ror d a b = rv64_no_e_rvb (Rvb.ror d a b)
reg_instr cfg RegOp.binv d a b = rv64_no_e_rvb (Rvb.binv d a b)
reg_instr cfg RegOp.bset d a b = rv64_no_e_rvb (Rvb.bset d a b)
reg_instr cfg RegOp.bclr d a b = rv64_no_e_rvb (Rvb.bclr d a b)
reg_instr cfg RegOp.bext d a b = rv64_no_e_rvb (Rvb.bext d a b)
reg_instr cfg RegOp.sh1add d a b = rv64_no_e_rvb (Rvb.sh1add d a b)
reg_instr cfg RegOp.sh2add d a b = rv64_no_e_rvb (Rvb.sh2add d a b)
reg_instr cfg RegOp.sh3add d a b = rv64_no_e_rvb (Rvb.sh3add d a b)
reg_instr cfg RegOp.clmul d a b = rv64_no_e_rvb (Rvb.clmul d a b)
reg_instr cfg RegOp.clmulr d a b = rv64_no_e_rvb (Rvb.clmulr d a b)
reg_instr cfg RegOp.clmulh d a b = rv64_no_e_rvb (Rvb.clmulh d a b)
reg_instr cfg RegOp.min d a b = rv64_no_e_rvb (Rvb.min d a b)
reg_instr cfg RegOp.minu d a b = rv64_no_e_rvb (Rvb.minu d a b)
reg_instr cfg RegOp.max d a b = rv64_no_e_rvb (Rvb.max d a b)
reg_instr cfg RegOp.maxu d a b = rv64_no_e_rvb (Rvb.maxu d a b)
reg_instr cfg RegOp.addw d a b = rv64 cfg (Rv64I.addw d a b)
reg_instr cfg RegOp.subw d a b = rv64 cfg (Rv64I.subw d a b)
reg_instr cfg RegOp.sllw d a b = rv64 cfg (Rv64I.sllw d a b)
reg_instr cfg RegOp.srlw d a b = rv64 cfg (Rv64I.srlw d a b)
reg_instr cfg RegOp.sraw d a b = rv64 cfg (Rv64I.sraw d a b)
reg_instr cfg RegOp.mulw d a b = rv64_no_e_rv64m (Rv64M.mulw d a b)
reg_instr cfg RegOp.divw d a b = rv64_no_e_rv64m (Rv64M.divw d a b)
reg_instr cfg RegOp.divuw d a b = rv64_no_e_rv64m (Rv64M.divuw d a b)
reg_instr cfg RegOp.remw d a b = rv64_no_e_rv64m (Rv64M.remw d a b)
reg_instr cfg RegOp.remuw d a b = rv64_no_e_rv64m (Rv64M.remuw d a b)
reg_instr cfg RegOp.adduw d a b = rv64_no_e_rvb (Rvb.adduw d a b)
reg_instr cfg RegOp.rolw d a b = rv64_no_e_rvb (Rvb.rolw d a b)
reg_instr cfg RegOp.rorw d a b = rv64_no_e_rvb (Rvb.rorw d a b)
reg_instr cfg RegOp.sh1adduw d a b = rv64_no_e_rvb (Rvb.sh1adduw d a b)
reg_instr cfg RegOp.sh2adduw d a b = rv64_no_e_rvb (Rvb.sh2adduw d a b)
reg_instr cfg RegOp.sh3adduw d a b = rv64_no_e_rvb (Rvb.sh3adduw d a b)
