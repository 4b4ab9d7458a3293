-- ===== src/Isa/SystemOps.antt =====
-- The atomic memory operations and the control-register instructions of the manuals.
use double_jit_vm.Isa.Words.{Code, code}
use double_jit_vm.Instr.{Instr}
use double_jit_vm.Instr.Operand.{Rd, Rs1, Rs2, Aq, Rl, UImm, CsrAddr}
use double_jit_vm.Instr.MulAtomic.{Rv32A, Rv64A}
use double_jit_vm.Instr.System.{RvZcsr}
use double_jit_vm.Decode.Config.{Config, rv32_no_e_rv32a, rv64_no_e_rv64a, rv64_no_e_rvzcsr}

-- Atomic operations; the third code is `funct5`.
pub data AmoOp : Type 0 where
  sc_w amoswap_w amoadd_w amoxor_w amoand_w amoor_w amomin_w amomax_w amominu_w : AmoOp
  amomaxu_w sc_d amoswap_d amoadd_d amoxor_d amoand_d amoor_d amomin_d amomax_d : AmoOp
  amominu_d amomaxu_d : AmoOp

abbrev pub amo_code : AmoOp → Code
amo_code AmoOp.sc_w = code 0b0101111 0b00011 0b010
amo_code AmoOp.amoswap_w = code 0b0101111 0b00001 0b010
amo_code AmoOp.amoadd_w = code 0b0101111 0b00000 0b010
amo_code AmoOp.amoxor_w = code 0b0101111 0b00100 0b010
amo_code AmoOp.amoand_w = code 0b0101111 0b01100 0b010
amo_code AmoOp.amoor_w = code 0b0101111 0b01000 0b010
amo_code AmoOp.amomin_w = code 0b0101111 0b10000 0b010
amo_code AmoOp.amomax_w = code 0b0101111 0b10100 0b010
amo_code AmoOp.amominu_w = code 0b0101111 0b11000 0b010
amo_code AmoOp.amomaxu_w = code 0b0101111 0b11100 0b010
amo_code AmoOp.sc_d = code 0b0101111 0b00011 0b011
amo_code AmoOp.amoswap_d = code 0b0101111 0b00001 0b011
amo_code AmoOp.amoadd_d = code 0b0101111 0b00000 0b011
amo_code AmoOp.amoxor_d = code 0b0101111 0b00100 0b011
amo_code AmoOp.amoand_d = code 0b0101111 0b01100 0b011
amo_code AmoOp.amoor_d = code 0b0101111 0b01000 0b011
amo_code AmoOp.amomin_d = code 0b0101111 0b10000 0b011
amo_code AmoOp.amomax_d = code 0b0101111 0b10100 0b011
amo_code AmoOp.amominu_d = code 0b0101111 0b11000 0b011
amo_code AmoOp.amomaxu_d = code 0b0101111 0b11100 0b011

abbrev pub amo_instr : Config → AmoOp → Rd → Rs1 → Rs2 → Aq → Rl → Instr
amo_instr cfg AmoOp.sc_w d a b c e = rv32_no_e_rv32a (Rv32A.sc_w d a b c e)
amo_instr cfg AmoOp.amoswap_w d a b c e = rv32_no_e_rv32a (Rv32A.amoswap_w d a b c e)
amo_instr cfg AmoOp.amoadd_w d a b c e = rv32_no_e_rv32a (Rv32A.amoadd_w d a b c e)
amo_instr cfg AmoOp.amoxor_w d a b c e = rv32_no_e_rv32a (Rv32A.amoxor_w d a b c e)
amo_instr cfg AmoOp.amoand_w d a b c e = rv32_no_e_rv32a (Rv32A.amoand_w d a b c e)
amo_instr cfg AmoOp.amoor_w d a b c e = rv32_no_e_rv32a (Rv32A.amoor_w d a b c e)
amo_instr cfg AmoOp.amomin_w d a b c e = rv32_no_e_rv32a (Rv32A.amomin_w d a b c e)
amo_instr cfg AmoOp.amomax_w d a b c e = rv32_no_e_rv32a (Rv32A.amomax_w d a b c e)
amo_instr cfg AmoOp.amominu_w d a b c e = rv32_no_e_rv32a (Rv32A.amominu_w d a b c e)
amo_instr cfg AmoOp.amomaxu_w d a b c e = rv32_no_e_rv32a (Rv32A.amomaxu_w d a b c e)
amo_instr cfg AmoOp.sc_d d a b c e = rv64_no_e_rv64a (Rv64A.sc_d d a b c e)
amo_instr cfg AmoOp.amoswap_d d a b c e = rv64_no_e_rv64a (Rv64A.amoswap_d d a b c e)
amo_instr cfg AmoOp.amoadd_d d a b c e = rv64_no_e_rv64a (Rv64A.amoadd_d d a b c e)
amo_instr cfg AmoOp.amoxor_d d a b c e = rv64_no_e_rv64a (Rv64A.amoxor_d d a b c e)
amo_instr cfg AmoOp.amoand_d d a b c e = rv64_no_e_rv64a (Rv64A.amoand_d d a b c e)
amo_instr cfg AmoOp.amoor_d d a b c e = rv64_no_e_rv64a (Rv64A.amoor_d d a b c e)
amo_instr cfg AmoOp.amomin_d d a b c e = rv64_no_e_rv64a (Rv64A.amomin_d d a b c e)
amo_instr cfg AmoOp.amomax_d d a b c e = rv64_no_e_rv64a (Rv64A.amomax_d d a b c e)
amo_instr cfg AmoOp.amominu_d d a b c e = rv64_no_e_rv64a (Rv64A.amominu_d d a b c e)
amo_instr cfg AmoOp.amomaxu_d d a b c e = rv64_no_e_rv64a (Rv64A.amomaxu_d d a b c e)

-- Control-register access by a register.
pub data CsrOp : Type 0 where
  csrrw csrrs csrrc : CsrOp

abbrev pub csr_code : CsrOp → Code
csr_code CsrOp.csrrw = code 0b1110011 0 0b001
csr_code CsrOp.csrrs = code 0b1110011 0 0b010
csr_code CsrOp.csrrc = code 0b1110011 0 0b011

abbrev pub csr_instr : Config → CsrOp → Rd → Rs1 → CsrAddr → Instr
csr_instr cfg CsrOp.csrrw d a b = rv64_no_e_rvzcsr (RvZcsr.csrrw d a b)
csr_instr cfg CsrOp.csrrs d a b = rv64_no_e_rvzcsr (RvZcsr.csrrs d a b)
csr_instr cfg CsrOp.csrrc d a b = rv64_no_e_rvzcsr (RvZcsr.csrrc d a b)

-- Control-register access by an immediate.
pub data CsrImmOp : Type 0 where
  csrrwi csrrsi csrrci : CsrImmOp

abbrev pub csr_imm_code : CsrImmOp → Code
csr_imm_code CsrImmOp.csrrwi = code 0b1110011 0 0b101
csr_imm_code CsrImmOp.csrrsi = code 0b1110011 0 0b110
csr_imm_code CsrImmOp.csrrci = code 0b1110011 0 0b111

abbrev pub csr_imm_instr : Config → CsrImmOp → Rd → UImm → CsrAddr → Instr
csr_imm_instr cfg CsrImmOp.csrrwi d a b = rv64_no_e_rvzcsr (RvZcsr.csrrwi d a b)
csr_imm_instr cfg CsrImmOp.csrrsi d a b = rv64_no_e_rvzcsr (RvZcsr.csrrsi d a b)
csr_imm_instr cfg CsrImmOp.csrrci d a b = rv64_no_e_rvzcsr (RvZcsr.csrrci d a b)

-- Either form.
pub data CsrAccess : Type 0 where
  register : CsrOp → CsrAccess
  immediate : CsrImmOp → CsrAccess

abbrev pub access_code : CsrAccess → Code
access_code (CsrAccess.register op) = csr_code op
access_code (CsrAccess.immediate op) = csr_imm_code op

-- The source is a register in the one form and a number in the other.
abbrev pub access_instr : Config → CsrAccess → Rd → Rs1 → UImm → CsrAddr → Instr
access_instr cfg (CsrAccess.register op) d a u c = csr_instr cfg op d a c
access_instr cfg (CsrAccess.immediate op) d a u c = csr_imm_instr cfg op d u c
