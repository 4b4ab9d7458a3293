-- ===== src/Decode/Format/Laws.antt =====
-- The format macros in closed form: with a register function that accepts 0 to 31 each reads its
-- operands from fixed fields of the word and cannot panic, but for the rounding mode.
use Prim.Native.Nat.{bit_and}
use native.Mathlib.Nat.{mul-div_left, one-le-pow}
use double_jit_vm.Prelude.{◌*◌, ℕ, ◌<◌, ◌^◌, ◌≡◌, arith}
use double_jit_vm.Prelude.Outcome.{Outcome, ok, ◌>>=◌}
use double_jit_vm.Word.{bits_at, shr32}
use double_jit_vm.Bits.{bit_and-field_mask}
use double_jit_vm.Instr.{Instr}
use double_jit_vm.Instr.Operand.{
  Xx, Reg, Rd, Rs, Rs1, Rs2, Rs3, Aq, Rl, Shamt, FenceFm, FencePred, FenceSucc, RoundingMode, Imm32,
  CsrAddr, UImm,
}
use double_jit_vm.Field.{
  aq, rl, rd, rs1, rs2, rs3, shamt, btype_immediate, jtype_immediate, itype_immediate,
  stype_immediate,
}
use double_jit_vm.Field.Laws.{rd_lem, rs1_lem, rs2_lem, rs3_lem, shamt_lem, funct3_lem}
use double_jit_vm.Decode.Format.{
  fp, gp, to_u8, operand, rounding_mode, i_format, b_format, rd_rs_format, rs1_rs2_format, r_format,
  s_format, j_format, u_format, r_shamt_format, fence_format, zicsr_rs1_format, zicsr_uimm_format,
  ra_format, ra_only_rs1_format, rrm_format, rrm_no_rs2_format, r4_format, rrm_no_rm_format,
  rrm_no_rs2_rm_format,
}

-- `reg` is the register file `file`, defined on 0 to 31.
abbrev pub IsFile : (ℕ → Outcome Reg) → (Xx 32 → Reg) → Type 0
IsFile reg file = (n : ℕ) → n < 32 → reg n ≡ ok (file (Xx.xx n))

pub gp-IsFile : IsFile gp Reg.x
unfolding gp
gp-IsFile n h = ground arith

pub fp-IsFile : IsFile fp Reg.f
unfolding fp
fp-IsFile n h = ground arith

-- The register that the field of five bits from bit `lo` on names.
abbrev pub reg_at : (Xx 32 → Reg) → ℕ → ℕ → Reg
reg_at file bit lo = file (Xx.xx (bits_at bit lo 5))

module _ (reg : ℕ → Outcome Reg) (file : Xx 32 → Reg) (total : IsFile reg file) where
  operand-eq-ok : (n : ℕ) → n < 32 → operand reg n ≡ ok (file (Xx.xx n))
  unfolding operand
  operand-eq-ok n h = ground (arith, total n h)

  pub operand-rd : (bit : ℕ) → operand reg (rd bit) ≡ ok (reg_at file bit 7)
  operand-rd bit = rw rd_lem (operand-eq-ok (bits_at bit 7 5) (omega arith))

  pub operand-rs1 : (bit : ℕ) → operand reg (rs1 bit) ≡ ok (reg_at file bit 15)
  operand-rs1 bit = rw rs1_lem (operand-eq-ok (bits_at bit 15 5) (omega arith))

  pub operand-rs2 : (bit : ℕ) → operand reg (rs2 bit) ≡ ok (reg_at file bit 20)
  operand-rs2 bit = rw rs2_lem (operand-eq-ok (bits_at bit 20 5) (omega arith))

  pub operand-rs3 : (bit : ℕ) → operand reg (rs3 bit) ≡ ok (reg_at file bit 27)
  operand-rs3 bit = rw rs3_lem (operand-eq-ok (bits_at bit 27 5) (omega arith))

-- The fields of `fence!`: four bits from bit `lo` on, masked where they stand.
fence_field : (lo bit : ℕ) → shr32 (bit_and bit (0xF * 2 ^ lo)) lo ≡ bits_at bit lo 4
fence_field lo bit =
    rw (bit_and-field_mask lo 4 bit)
      (mul-div_left (bits_at bit lo 4) (one-le-pow lo 2 (omega arith)))

to_u8-shamt : (bit : ℕ) → to_u8 (shamt bit) ≡ ok (bits_at bit 20 5)
unfolding to_u8
to_u8-shamt bit = rw shamt_lem (ground arith)

module _ {A : Type 0} (type : A → Instr) (bit : ℕ) where
  pub i_format_lem :
      (op : Rd → Rs1 → Imm32 11 0 → A)
      → i_format type op gp bit
        ≡ ok (
            type (
              op
                (Rd.reg (reg_at Reg.x bit 7))
                (Rs1.reg (reg_at Reg.x bit 15))
                (Imm32.imm (itype_immediate bit))))
  unfolding i_format
  i_format_lem op = rw (operand-rd gp Reg.x gp-IsFile, operand-rs1 gp Reg.x gp-IsFile)

  pub b_format_lem :
      (op : Rs1 → Rs2 → Imm32 12 1 → A)
      → b_format type op gp bit
        ≡ ok (
            type (
              op
                (Rs1.reg (reg_at Reg.x bit 15))
                (Rs2.reg (reg_at Reg.x bit 20))
                (Imm32.imm (btype_immediate bit))))
  unfolding b_format
  b_format_lem op = rw (operand-rs1 gp Reg.x gp-IsFile, operand-rs2 gp Reg.x gp-IsFile)

  pub rd_rs_format_lem :
      (op : Rd → Rs → A)
      → rd_rs_format type op gp bit
        ≡ ok (type (op (Rd.reg (reg_at Reg.x bit 7)) (Rs.reg (reg_at Reg.x bit 15))))
  unfolding rd_rs_format
  rd_rs_format_lem op = rw (operand-rs1 gp Reg.x gp-IsFile, operand-rd gp Reg.x gp-IsFile)

  pub rs1_rs2_format_lem :
      (op : Rs1 → Rs2 → A)
      → rs1_rs2_format type op gp bit
        ≡ ok (type (op (Rs1.reg (reg_at Reg.x bit 15)) (Rs2.reg (reg_at Reg.x bit 20))))
  unfolding rs1_rs2_format
  rs1_rs2_format_lem op = rw (operand-rs1 gp Reg.x gp-IsFile, operand-rs2 gp Reg.x gp-IsFile)

  pub r_format_lem :
      (op : Rd → Rs1 → Rs2 → A)
      → r_format type op gp bit
        ≡ ok (
            type (
              op
                (Rd.reg (reg_at Reg.x bit 7))
                (Rs1.reg (reg_at Reg.x bit 15))
                (Rs2.reg (reg_at Reg.x bit 20))))
  unfolding r_format
  r_format_lem op = rw (
    operand-rd gp Reg.x gp-IsFile,
    operand-rs1 gp Reg.x gp-IsFile,
    operand-rs2 gp Reg.x gp-IsFile,
  )

  pub s_format_lem :
      (op : Rs1 → Rs2 → Imm32 11 0 → A)
      → s_format type op gp bit
        ≡ ok (
            type (
              op
                (Rs1.reg (reg_at Reg.x bit 15))
                (Rs2.reg (reg_at Reg.x bit 20))
                (Imm32.imm (stype_immediate bit))))
  unfolding s_format
  s_format_lem op = rw (operand-rs1 gp Reg.x gp-IsFile, operand-rs2 gp Reg.x gp-IsFile)

  pub j_format_lem :
      (op : Rd → Imm32 20 1 → A)
      → j_format type op gp bit
        ≡ ok (type (op (Rd.reg (reg_at Reg.x bit 7)) (Imm32.imm (jtype_immediate bit))))
  unfolding j_format
  j_format_lem op = rw (operand-rd gp Reg.x gp-IsFile)

  pub u_format_lem :
      (op : Rd → Imm32 31 12 → A)
      → u_format type op gp bit
        ≡ ok (type (op (Rd.reg (reg_at Reg.x bit 7)) (Imm32.imm (itype_immediate bit))))
  unfolding u_format
  u_format_lem op = rw (operand-rd gp Reg.x gp-IsFile)

  pub r_shamt_format_lem :
      (op : Rd → Rs1 → Shamt → A)
      → r_shamt_format type op gp bit
        ≡ ok (
            type (
              op
                (Rd.reg (reg_at Reg.x bit 7))
                (Rs1.reg (reg_at Reg.x bit 15))
                (Shamt.amount (bits_at bit 20 5))))
  unfolding r_shamt_format
  r_shamt_format_lem op =
      rw (operand-rd gp Reg.x gp-IsFile, operand-rs1 gp Reg.x gp-IsFile, to_u8-shamt)

  pub fence_format_lem :
      (op : Rd → Rs1 → FenceSucc → FencePred → FenceFm → A)
      → fence_format type op gp bit
        ≡ ok (
            type (
              op
                (Rd.reg (reg_at Reg.x bit 7))
                (Rs1.reg (reg_at Reg.x bit 15))
                (FenceSucc.bits (Xx.xx (bits_at bit 20 4)))
                (FencePred.bits (Xx.xx (bits_at bit 24 4)))
                (FenceFm.bits (Xx.xx (bits_at bit 28 4)))))
  unfolding fence_format
  fence_format_lem op = rw (
    operand-rd gp Reg.x gp-IsFile,
    operand-rs1 gp Reg.x gp-IsFile,
    fence_field 20 bit,
    fence_field 24 bit,
    fence_field 28 bit,
  )

  pub zicsr_rs1_format_lem :
      (op : Rd → Rs1 → CsrAddr → A)
      → zicsr_rs1_format type op gp bit
        ≡ ok (
            type (
              op
                (Rd.reg (reg_at Reg.x bit 7))
                (Rs1.reg (reg_at Reg.x bit 15))
                (CsrAddr.addr (Imm32.imm (itype_immediate bit)))))
  unfolding zicsr_rs1_format
  zicsr_rs1_format_lem op = rw (operand-rd gp Reg.x gp-IsFile, operand-rs1 gp Reg.x gp-IsFile)

  pub zicsr_uimm_format_lem :
      (op : Rd → UImm → CsrAddr → A)
      → zicsr_uimm_format type op gp bit
        ≡ ok (
            type (
              op
                (Rd.reg (reg_at Reg.x bit 7))
                (UImm.value (Imm32.imm (bits_at bit 15 5)))
                (CsrAddr.addr (Imm32.imm (itype_immediate bit)))))
  unfolding zicsr_uimm_format
  zicsr_uimm_format_lem op = rw (operand-rd gp Reg.x gp-IsFile, rs1_lem)

  pub ra_format_lem :
      (op : Rd → Rs1 → Rs2 → Aq → Rl → A)
      → ra_format type op gp bit
        ≡ ok (
            type (
              op
                (Rd.reg (reg_at Reg.x bit 7))
                (Rs1.reg (reg_at Reg.x bit 15))
                (Rs2.reg (reg_at Reg.x bit 20))
                (Aq.flag (aq bit))
                (Rl.flag (rl bit))))
  unfolding ra_format
  ra_format_lem op = rw (
    operand-rd gp Reg.x gp-IsFile,
    operand-rs1 gp Reg.x gp-IsFile,
    operand-rs2 gp Reg.x gp-IsFile,
  )

  pub ra_only_rs1_format_lem :
      (op : Rd → Rs1 → Aq → Rl → A)
      → ra_only_rs1_format type op gp bit
        ≡ ok (
            type (
              op
                (Rd.reg (reg_at Reg.x bit 7))
                (Rs1.reg (reg_at Reg.x bit 15))
                (Aq.flag (aq bit))
                (Rl.flag (rl bit))))
  unfolding ra_only_rs1_format
  ra_only_rs1_format_lem op = rw (operand-rd gp Reg.x gp-IsFile, operand-rs1 gp Reg.x gp-IsFile)

-- The float formats, over the register files of the destination and of the sources.
module _ {A : Type 0} (type : A → Instr) (rd_reg rs_reg : ℕ → Outcome Reg)
    (rd_file rs_file : Xx 32 → Reg) (rd_total : IsFile rd_reg rd_file)
    (rs_total : IsFile rs_reg rs_file) (bit : ℕ) where
  pub rrm_format_lem :
      (op : Rd → Rs1 → Rs2 → RoundingMode → A)
      → rrm_format type op rd_reg rs_reg bit ≡ (
          rounding_mode (bits_at bit 12 3) >>= λ rm. ok (
            type (
              op
                (Rd.reg (reg_at rd_file bit 7))
                (Rs1.reg (reg_at rs_file bit 15))
                (Rs2.reg (reg_at rs_file bit 20))
                rm)))
  unfolding rrm_format
  rrm_format_lem op = rw (
    operand-rd rd_reg rd_file rd_total,
    operand-rs1 rs_reg rs_file rs_total,
    operand-rs2 rs_reg rs_file rs_total,
    funct3_lem,
  )

  pub rrm_no_rs2_format_lem :
      (op : Rd → Rs1 → RoundingMode → A)
      → rrm_no_rs2_format type op rd_reg rs_reg bit ≡ (
          rounding_mode (bits_at bit 12 3) >>= λ rm.
          ok (type (op (Rd.reg (reg_at rd_file bit 7)) (Rs1.reg (reg_at rs_file bit 15)) rm)))
  unfolding rrm_no_rs2_format
  rrm_no_rs2_format_lem op =
      rw (operand-rd rd_reg rd_file rd_total, operand-rs1 rs_reg rs_file rs_total, funct3_lem)

  pub rrm_no_rm_format_lem :
      (op : Rd → Rs1 → Rs2 → A)
      → rrm_no_rm_format type op rd_reg rs_reg bit
        ≡ ok (
            type (
              op
                (Rd.reg (reg_at rd_file bit 7))
                (Rs1.reg (reg_at rs_file bit 15))
                (Rs2.reg (reg_at rs_file bit 20))))
  unfolding rrm_no_rm_format
  rrm_no_rm_format_lem op = rw (
    operand-rd rd_reg rd_file rd_total,
    operand-rs1 rs_reg rs_file rs_total,
    operand-rs2 rs_reg rs_file rs_total,
  )

  pub rrm_no_rs2_rm_format_lem :
      (op : Rd → Rs1 → A)
      → rrm_no_rs2_rm_format type op rd_reg rs_reg bit
        ≡ ok (type (op (Rd.reg (reg_at rd_file bit 7)) (Rs1.reg (reg_at rs_file bit 15))))
  unfolding rrm_no_rs2_rm_format
  rrm_no_rs2_rm_format_lem op =
      rw (operand-rd rd_reg rd_file rd_total, operand-rs1 rs_reg rs_file rs_total)

module _ {A : Type 0} (type : A → Instr) (bit : ℕ) where
  pub r4_format_lem :
      (op : Rd → Rs1 → Rs2 → Rs3 → RoundingMode → A)
      → r4_format type op fp bit ≡ (
          rounding_mode (bits_at bit 12 3) >>= λ rm. ok (
            type (
              op
                (Rd.reg (reg_at Reg.f bit 7))
                (Rs1.reg (reg_at Reg.f bit 15))
                (Rs2.reg (reg_at Reg.f bit 20))
                (Rs3.reg (reg_at Reg.f bit 27))
                rm)))
  unfolding r4_format
  r4_format_lem op = rw (
    operand-rd fp Reg.f fp-IsFile,
    operand-rs1 fp Reg.f fp-IsFile,
    operand-rs2 fp Reg.f fp-IsFile,
    operand-rs3 fp Reg.f fp-IsFile,
    funct3_lem,
  )
