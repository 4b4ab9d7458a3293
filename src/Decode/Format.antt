-- ===== src/Decode/Format.antt =====
-- The format macros of src/frontend/instruction.rs (`i!`, `b!`, `r!`, ...). Each takes the wrapper
-- and the variant, as the macro takes `$type`, `$opcode1` and `$opcode2`, then the register
-- functions and the word, and reads its operands in the order of the macro.
pub mod Laws
use Prim.Native.Nat.{bit_and}
use double_jit_vm.Prelude.{ℕ, ◌^◌, ltb, leb, ◌==◌, if◌then◌else◌}
use double_jit_vm.Prelude.Outcome.{
  Outcome, ok, panic, ◌>>=◌, unwrap_err, wrong_rounding_mode, inaccessible_register,
}
use double_jit_vm.Word.{shr32}
use double_jit_vm.Instr.{Instr}
use double_jit_vm.Instr.Operand.{
  Xx, Reg, Rd, Rs, Rs1, Rs2, Rs3, Aq, Rl, Shamt, FenceFm, FencePred, FenceSucc, RoundingMode, Imm32,
  CsrAddr, UImm,
}
use double_jit_vm.Field.{
  funct3, aq, rl, rd, rs1, rs2, rs3, shamt, btype_immediate, jtype_immediate, itype_immediate,
  stype_immediate,
}

unfoldable pub fp : ℕ → Outcome Reg
fp reg = if leb reg 31 then ok (Reg.f (Xx.xx reg)) else panic inaccessible_register

unfoldable pub gp : ℕ → Outcome Reg
gp reg = if leb reg 31 then ok (Reg.x (Xx.xx reg)) else panic inaccessible_register

-- `n.try_into().unwrap()` from `u32` to `u8`.
unfoldable pub to_u8 : ℕ → Outcome ℕ
to_u8 n = if ltb n (2 ^ 8) then ok n else panic unwrap_err

-- `$reg(n.try_into().unwrap())`.
unfoldable pub operand : (ℕ → Outcome Reg) → ℕ → Outcome Reg
unfolding to_u8
operand reg n = to_u8 n >>= reg

-- The `match rm` of `rrm!`, `rrm_no_rs2!` and `r4!`.
unfoldable pub rounding_mode : ℕ → Outcome RoundingMode
rounding_mode rm =
    if rm == 0b000
    then ok RoundingMode.rne
    else if rm == 0b001
    then ok RoundingMode.rtz
    else if rm == 0b010
    then ok RoundingMode.rdn
    else if rm == 0b011
    then ok RoundingMode.rup
    else if rm == 0b100
    then ok RoundingMode.rmm
    else if rm == 0b111
    then ok RoundingMode.dyn
    else panic wrong_rounding_mode

module _ {A : Type 0} (type : A → Instr) where
  unfoldable pub i_format : (Rd → Rs1 → Imm32 11 0 → A) → (ℕ → Outcome Reg) → ℕ → Outcome Instr
  i_format op reg bit = do
    d ← operand reg (rd bit)
    s1 ← operand reg (rs1 bit)
    ok (type (op (Rd.reg d) (Rs1.reg s1) (Imm32.imm (itype_immediate bit))))

  unfoldable pub b_format : (Rs1 → Rs2 → Imm32 12 1 → A) → (ℕ → Outcome Reg) → ℕ → Outcome Instr
  b_format op reg bit = do
    s1 ← operand reg (rs1 bit)
    s2 ← operand reg (rs2 bit)
    ok (type (op (Rs1.reg s1) (Rs2.reg s2) (Imm32.imm (btype_immediate bit))))

  unfoldable pub rd_rs_format : (Rd → Rs → A) → (ℕ → Outcome Reg) → ℕ → Outcome Instr
  rd_rs_format op reg bit = do
    s ← operand reg (rs1 bit)
    d ← operand reg (rd bit)
    ok (type (op (Rd.reg d) (Rs.reg s)))

  unfoldable pub rs1_rs2_format : (Rs1 → Rs2 → A) → (ℕ → Outcome Reg) → ℕ → Outcome Instr
  rs1_rs2_format op reg bit = do
    s1 ← operand reg (rs1 bit)
    s2 ← operand reg (rs2 bit)
    ok (type (op (Rs1.reg s1) (Rs2.reg s2)))

  unfoldable pub r_format : (Rd → Rs1 → Rs2 → A) → (ℕ → Outcome Reg) → ℕ → Outcome Instr
  r_format op reg bit = do
    d ← operand reg (rd bit)
    s1 ← operand reg (rs1 bit)
    s2 ← operand reg (rs2 bit)
    ok (type (op (Rd.reg d) (Rs1.reg s1) (Rs2.reg s2)))

  unfoldable pub s_format : (Rs1 → Rs2 → Imm32 11 0 → A) → (ℕ → Outcome Reg) → ℕ → Outcome Instr
  s_format op reg bit = do
    s1 ← operand reg (rs1 bit)
    s2 ← operand reg (rs2 bit)
    ok (type (op (Rs1.reg s1) (Rs2.reg s2) (Imm32.imm (stype_immediate bit))))

  unfoldable pub j_format : (Rd → Imm32 20 1 → A) → (ℕ → Outcome Reg) → ℕ → Outcome Instr
  j_format op reg bit = do
    d ← operand reg (rd bit)
    ok (type (op (Rd.reg d) (Imm32.imm (jtype_immediate bit))))

  -- The macro reads `itype_immediate`, not `utype_immediate`.
  unfoldable pub u_format : (Rd → Imm32 31 12 → A) → (ℕ → Outcome Reg) → ℕ → Outcome Instr
  u_format op reg bit = do
    d ← operand reg (rd bit)
    ok (type (op (Rd.reg d) (Imm32.imm (itype_immediate bit))))

  unfoldable pub r_shamt_format : (Rd → Rs1 → Shamt → A) → (ℕ → Outcome Reg) → ℕ → Outcome Instr
  r_shamt_format op reg bit = do
    d ← operand reg (rd bit)
    s1 ← operand reg (rs1 bit)
    n ← to_u8 (shamt bit)
    ok (type (op (Rd.reg d) (Rs1.reg s1) (Shamt.amount n)))

  unfoldable pub fence_format :
      (Rd → Rs1 → FenceSucc → FencePred → FenceFm → A) → (ℕ → Outcome Reg) → ℕ → Outcome Instr
  fence_format op reg bit = do
    d ← operand reg (rd bit)
    s1 ← operand reg (rs1 bit)
    let succ = FenceSucc.bits (Xx.xx (shr32 (bit_and bit 0x00F_00000) 20))
    let pred = FencePred.bits (Xx.xx (shr32 (bit_and bit 0x0F0_00000) 24))
    let fm = FenceFm.bits (Xx.xx (shr32 (bit_and bit 0xF00_00000) 28))
    ok (type (op (Rd.reg d) (Rs1.reg s1) succ pred fm))

  unfoldable pub zicsr_rs1_format : (Rd → Rs1 → CsrAddr → A) → (ℕ → Outcome Reg) → ℕ → Outcome Instr
  zicsr_rs1_format op reg bit = do
    d ← operand reg (rd bit)
    s1 ← operand reg (rs1 bit)
    ok (type (op (Rd.reg d) (Rs1.reg s1) (CsrAddr.addr (Imm32.imm (itype_immediate bit)))))

  unfoldable pub zicsr_uimm_format :
      (Rd → UImm → CsrAddr → A) → (ℕ → Outcome Reg) → ℕ → Outcome Instr
  zicsr_uimm_format op reg bit = do
    d ← operand reg (rd bit)
    let uimm = UImm.value (Imm32.imm (rs1 bit))
    ok (type (op (Rd.reg d) uimm (CsrAddr.addr (Imm32.imm (itype_immediate bit)))))

  unfoldable pub ra_format : (Rd → Rs1 → Rs2 → Aq → Rl → A) → (ℕ → Outcome Reg) → ℕ → Outcome Instr
  ra_format op reg bit = do
    d ← operand reg (rd bit)
    s1 ← operand reg (rs1 bit)
    s2 ← operand reg (rs2 bit)
    ok (type (op (Rd.reg d) (Rs1.reg s1) (Rs2.reg s2) (Aq.flag (aq bit)) (Rl.flag (rl bit))))

  unfoldable pub ra_only_rs1_format :
      (Rd → Rs1 → Aq → Rl → A) → (ℕ → Outcome Reg) → ℕ → Outcome Instr
  ra_only_rs1_format op reg bit = do
    d ← operand reg (rd bit)
    s1 ← operand reg (rs1 bit)
    ok (type (op (Rd.reg d) (Rs1.reg s1) (Aq.flag (aq bit)) (Rl.flag (rl bit))))

  -- The float formats: destination and sources may lie in different register files.
  unfoldable pub rrm_format :
      (Rd → Rs1 → Rs2 → RoundingMode → A)
      → (ℕ → Outcome Reg)
      → (ℕ → Outcome Reg)
      → ℕ
      → Outcome Instr
  rrm_format op rd_reg rs_reg bit = do
    d ← operand rd_reg (rd bit)
    s1 ← operand rs_reg (rs1 bit)
    s2 ← operand rs_reg (rs2 bit)
    rm ← rounding_mode (funct3 bit)
    ok (type (op (Rd.reg d) (Rs1.reg s1) (Rs2.reg s2) rm))

  unfoldable pub rrm_no_rs2_format :
      (Rd → Rs1 → RoundingMode → A) → (ℕ → Outcome Reg) → (ℕ → Outcome Reg) → ℕ → Outcome Instr
  rrm_no_rs2_format op rd_reg rs_reg bit = do
    d ← operand rd_reg (rd bit)
    s1 ← operand rs_reg (rs1 bit)
    rm ← rounding_mode (funct3 bit)
    ok (type (op (Rd.reg d) (Rs1.reg s1) rm))

  unfoldable pub r4_format :
      (Rd → Rs1 → Rs2 → Rs3 → RoundingMode → A) → (ℕ → Outcome Reg) → ℕ → Outcome Instr
  r4_format op reg bit = do
    d ← operand reg (rd bit)
    s1 ← operand reg (rs1 bit)
    s2 ← operand reg (rs2 bit)
    s3 ← operand reg (rs3 bit)
    rm ← rounding_mode (funct3 bit)
    ok (type (op (Rd.reg d) (Rs1.reg s1) (Rs2.reg s2) (Rs3.reg s3) rm))

  unfoldable pub rrm_no_rm_format :
      (Rd → Rs1 → Rs2 → A) → (ℕ → Outcome Reg) → (ℕ → Outcome Reg) → ℕ → Outcome Instr
  rrm_no_rm_format op rd_reg rs_reg bit = do
    d ← operand rd_reg (rd bit)
    s1 ← operand rs_reg (rs1 bit)
    s2 ← operand rs_reg (rs2 bit)
    ok (type (op (Rd.reg d) (Rs1.reg s1) (Rs2.reg s2)))

  unfoldable pub rrm_no_rs2_rm_format :
      (Rd → Rs1 → A) → (ℕ → Outcome Reg) → (ℕ → Outcome Reg) → ℕ → Outcome Instr
  rrm_no_rs2_rm_format op rd_reg rs_reg bit = do
    d ← operand rd_reg (rd bit)
    s1 ← operand rs_reg (rs1 bit)
    ok (type (op (Rd.reg d) (Rs1.reg s1)))
