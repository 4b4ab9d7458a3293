-- ===== src/RoundTrip/Csr.antt =====
-- Control-register instructions.
use double_jit_vm.Prelude.{ℕ, ◌%◌, ◌^◌, ◌<◌, ◌≡◌, some, arith}
use double_jit_vm.Prelude.Outcome.{ok}
use double_jit_vm.Word.{bits_at, sign_extend}
use double_jit_vm.Instr.Operand.{
  Reg, Rd, Rs1, Imm32, CsrAddr, UImm, decode, underlying, csr_value, uimm_value,
}
use double_jit_vm.Field.{funct3, itype_immediate}
use double_jit_vm.Field.Laws.{funct3_lem, itype_immediate_lem}
use double_jit_vm.Isa.Words.{i_word}
use double_jit_vm.Isa.SystemOps.{
  CsrOp, csr_code, csr_instr, CsrImmOp, csr_imm_code, csr_imm_instr, CsrAccess, access_code,
  access_instr,
}
use double_jit_vm.Compressed.Quadrants.{x_rd, x_rs1}
use double_jit_vm.Decode.Config.{Config}
use double_jit_vm.Decode.Format.Laws.{reg_at, zicsr_rs1_format_lem, zicsr_uimm_format_lem}
use double_jit_vm.Decode.System.{system_arms}
use double_jit_vm.Decode.Parse.{opcode_arms, parse_word}
use double_jit_vm.Decode.Full.{parse_word-eq-arms}

-- `CSRAddr::value` drops what the sign extension has put above the address, and `UImm::value` keeps
-- the immediate.
csr_value-sign_extend :
    (address : ℕ)
    → address < 2 ^ 12
    → csr_value (CsrAddr.addr (Imm32.imm (sign_extend 12 address))) ≡ address
unfolding csr_value decode underlying
csr_value-sign_extend address h = ground arith

uimm_value-imm : (uimm : ℕ) → uimm < 32 → uimm_value (UImm.value (Imm32.imm uimm)) ≡ uimm
unfolding uimm_value decode underlying
uimm_value-imm uimm h = omega arith

opcode_arms-csr :
    (cfg : Config) (op : CsrOp) (w : ℕ)
    → funct3 w ≡ (csr_code op).funct3
    → opcode_arms cfg w (csr_code op).opcode
      ≡ ok (
          some (
            csr_instr cfg op
              (Rd.reg (reg_at Reg.x w 7))
              (Rs1.reg (reg_at Reg.x w 15))
              (CsrAddr.addr (Imm32.imm (itype_immediate w)))))
unfolding opcode_arms
opcode_arms-csr cfg CsrOp.csrrw w h3 = rw (h3) (unfold system_arms in simp zicsr_rs1_format_lem)
opcode_arms-csr cfg _ w h3 = rw (h3) (unfold system_arms in simp zicsr_rs1_format_lem)

csr_code_low :
    (op : CsrOp)
    → ((csr_code op).opcode % 4 ≡ 3) × ((csr_code op).opcode < 128) × ((csr_code op).funct3 < 8)
csr_code_low CsrOp.csrrw = omega arith
csr_code_low _ = omega arith

opcode_arms-csr_imm :
    (cfg : Config) (op : CsrImmOp) (w : ℕ)
    → funct3 w ≡ (csr_imm_code op).funct3
    → opcode_arms cfg w (csr_imm_code op).opcode
      ≡ ok (
          some (
            csr_imm_instr cfg op
              (Rd.reg (reg_at Reg.x w 7))
              (UImm.value (Imm32.imm (bits_at w 15 5)))
              (CsrAddr.addr (Imm32.imm (itype_immediate w)))))
unfolding opcode_arms
opcode_arms-csr_imm cfg CsrImmOp.csrrwi w h3 =
    rw (h3) (unfold system_arms in simp zicsr_uimm_format_lem)
opcode_arms-csr_imm cfg _ w h3 = rw (h3) (unfold system_arms in simp zicsr_uimm_format_lem)

csr_imm_code_low :
    (op : CsrImmOp)
    → ((csr_imm_code op).opcode % 4 ≡ 3)
      × ((csr_imm_code op).opcode < 128)
      × ((csr_imm_code op).funct3 < 8)
csr_imm_code_low CsrImmOp.csrrwi = omega arith
csr_imm_code_low _ = omega arith

module _ (cfg : Config) (d source address : ℕ) (d_low : d < 32) (source_low : source < 32)
    (address_low : address < 2 ^ 12) where
  abbrev csr_addr : CsrAddr
  csr_addr = CsrAddr.addr (Imm32.imm (sign_extend 12 address))

  access :
      (op : CsrAccess)
      → parse_word cfg (i_word (access_code op) d source address)
        ≡ ok (access_instr cfg op (x_rd d) (x_rs1 source) (UImm.value (Imm32.imm source)) csr_addr)
  access (CsrAccess.register op) =
      let low = csr_code_low op in
      let w = i_word (csr_code op) d source address in
      let field3 : funct3 w ≡ (csr_code op).funct3 = omega (arith, funct3_lem w) in
      let at7 : bits_at w 7 5 ≡ d = omega arith in
      let at15 : bits_at w 15 5 ≡ source = omega arith in
      let top : bits_at w 20 12 ≡ address = omega arith in
      rw (
        parse_word-eq-arms cfg w (csr_code op).opcode (omega arith) low.0,
        opcode_arms-csr cfg op w field3,
        at7,
        at15,
        itype_immediate_lem w (omega arith),
        top,
      )
  access (CsrAccess.immediate op) =
      let low = csr_imm_code_low op in
      let w = i_word (csr_imm_code op) d source address in
      let field3 : funct3 w ≡ (csr_imm_code op).funct3 = omega (arith, funct3_lem w) in
      let at7 : bits_at w 7 5 ≡ d = omega arith in
      let at15 : bits_at w 15 5 ≡ source = omega arith in
      let top : bits_at w 20 12 ≡ address = omega arith in
      rw (
        parse_word-eq-arms cfg w (csr_imm_code op).opcode (omega arith) low.0,
        opcode_arms-csr_imm cfg op w field3,
        at7,
        at15,
        itype_immediate_lem w (omega arith),
        top,
      )

-- The word of a control-register access, by a register or by an immediate, decodes to it, with the
-- 12-bit address of the control register kept sign-extended; `CSRAddr::value` gives the address
-- itself, and `UImm::value` the 5-bit immediate.
pub parse_word-csr_word :
    (cfg : Config) (op : CsrAccess) (d source address : ℕ)
    → d < 32
    → source < 32
    → address < 2 ^ 12
    → (parse_word cfg (i_word (access_code op) d source address)
        ≡ ok (
            access_instr cfg op
              (x_rd d)
              (x_rs1 source)
              (UImm.value (Imm32.imm source))
              (CsrAddr.addr (Imm32.imm (sign_extend 12 address)))))
      × (uimm_value (UImm.value (Imm32.imm source)) ≡ source)
      × (csr_value (CsrAddr.addr (Imm32.imm (sign_extend 12 address))) ≡ address)
parse_word-csr_word cfg op d source address hd hs ha = (
  access cfg d source address hd hs ha op,
  uimm_value-imm source hs,
  csr_value-sign_extend address ha,
)
