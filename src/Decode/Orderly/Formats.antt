-- ===== src/Decode/Orderly/Formats.antt =====
-- The formats of src/frontend/instruction.rs end in order: the register numbers and the shift amount
-- of a word are in range, so only a rounding mode can fail.
use double_jit_vm.Prelude.{ℕ}
use double_jit_vm.Word.{bits_at}
use double_jit_vm.Instr.{Instr}
use double_jit_vm.Instr.Operand.{
  Reg, Rd, Rs, Rs1, Rs2, Rs3, Aq, Rl, Shamt, FenceFm, FencePred, FenceSucc, RoundingMode, Imm32,
  CsrAddr, UImm,
}
use double_jit_vm.Decode.Orderly.{IsOrderly, returns, bad_mode, either_arm, step-IsOrderly}
use double_jit_vm.Decode.Format.{
  gp, fp, rounding_mode, i_format, b_format, rd_rs_format, rs1_rs2_format, r_format, s_format,
  j_format, u_format, r_shamt_format, fence_format, zicsr_rs1_format, zicsr_uimm_format, ra_format,
  ra_only_rs1_format, rrm_format, rrm_no_rs2_format, rrm_no_rm_format, rrm_no_rs2_rm_format,
  r4_format,
}
use double_jit_vm.Decode.Format.Laws.{
  gp-IsFile, fp-IsFile, i_format_lem, b_format_lem, rd_rs_format_lem, rs1_rs2_format_lem,
  r_format_lem, s_format_lem, j_format_lem, u_format_lem, r_shamt_format_lem, fence_format_lem,
  zicsr_rs1_format_lem, zicsr_uimm_format_lem, ra_format_lem, ra_only_rs1_format_lem,
  rrm_format_lem, rrm_no_rs2_format_lem, rrm_no_rm_format_lem, rrm_no_rs2_rm_format_lem,
  r4_format_lem,
}

rounding_mode-IsOrderly : (rm : ℕ) → IsOrderly (rounding_mode rm)
unfolding rounding_mode
rounding_mode-IsOrderly rm = search (either_arm, returns, bad_mode) depth 12

module _ {A : Type 0} (type : A → Instr) (bit : ℕ) where
  pub i_format-IsOrderly : (op : Rd → Rs1 → Imm32 11 0 → A) → IsOrderly (i_format type op gp bit)
  i_format-IsOrderly op = rw (i_format_lem type bit op) (returns _)

  pub b_format-IsOrderly : (op : Rs1 → Rs2 → Imm32 12 1 → A) → IsOrderly (b_format type op gp bit)
  b_format-IsOrderly op = rw (b_format_lem type bit op) (returns _)

  pub rd_rs_format-IsOrderly : (op : Rd → Rs → A) → IsOrderly (rd_rs_format type op gp bit)
  rd_rs_format-IsOrderly op = rw (rd_rs_format_lem type bit op) (returns _)

  pub rs1_rs2_format-IsOrderly : (op : Rs1 → Rs2 → A) → IsOrderly (rs1_rs2_format type op gp bit)
  rs1_rs2_format-IsOrderly op = rw (rs1_rs2_format_lem type bit op) (returns _)

  pub r_format-IsOrderly : (op : Rd → Rs1 → Rs2 → A) → IsOrderly (r_format type op gp bit)
  r_format-IsOrderly op = rw (r_format_lem type bit op) (returns _)

  pub s_format-IsOrderly : (op : Rs1 → Rs2 → Imm32 11 0 → A) → IsOrderly (s_format type op gp bit)
  s_format-IsOrderly op = rw (s_format_lem type bit op) (returns _)

  pub j_format-IsOrderly : (op : Rd → Imm32 20 1 → A) → IsOrderly (j_format type op gp bit)
  j_format-IsOrderly op = rw (j_format_lem type bit op) (returns _)

  pub u_format-IsOrderly : (op : Rd → Imm32 31 12 → A) → IsOrderly (u_format type op gp bit)
  u_format-IsOrderly op = rw (u_format_lem type bit op) (returns _)

  pub r_shamt_format-IsOrderly :
      (op : Rd → Rs1 → Shamt → A) → IsOrderly (r_shamt_format type op gp bit)
  r_shamt_format-IsOrderly op = rw (r_shamt_format_lem type bit op) (returns _)

  pub fence_format-IsOrderly :
      (op : Rd → Rs1 → FenceSucc → FencePred → FenceFm → A)
      → IsOrderly (fence_format type op gp bit)
  fence_format-IsOrderly op = rw (fence_format_lem type bit op) (returns _)

  pub zicsr_rs1_format-IsOrderly :
      (op : Rd → Rs1 → CsrAddr → A) → IsOrderly (zicsr_rs1_format type op gp bit)
  zicsr_rs1_format-IsOrderly op = rw (zicsr_rs1_format_lem type bit op) (returns _)

  pub zicsr_uimm_format-IsOrderly :
      (op : Rd → UImm → CsrAddr → A) → IsOrderly (zicsr_uimm_format type op gp bit)
  zicsr_uimm_format-IsOrderly op = rw (zicsr_uimm_format_lem type bit op) (returns _)

  pub ra_format-IsOrderly :
      (op : Rd → Rs1 → Rs2 → Aq → Rl → A) → IsOrderly (ra_format type op gp bit)
  ra_format-IsOrderly op = rw (ra_format_lem type bit op) (returns _)

  pub ra_only_rs1_format-IsOrderly :
      (op : Rd → Rs1 → Aq → Rl → A) → IsOrderly (ra_only_rs1_format type op gp bit)
  ra_only_rs1_format-IsOrderly op = rw (ra_only_rs1_format_lem type bit op) (returns _)

  pub rrm_format-IsOrderly :
      (op : Rd → Rs1 → Rs2 → RoundingMode → A) → IsOrderly (rrm_format type op fp fp bit)
  rrm_format-IsOrderly op = rw (rrm_format_lem type fp fp Reg.f Reg.f fp-IsFile fp-IsFile bit op) (
      step-IsOrderly (rounding_mode (bits_at bit 12 3)) _
        (rounding_mode-IsOrderly (bits_at bit 12 3)))

  pub rrm_format-gp-fp-IsOrderly :
      (op : Rd → Rs1 → Rs2 → RoundingMode → A) → IsOrderly (rrm_format type op gp fp bit)
  rrm_format-gp-fp-IsOrderly op =
      rw (rrm_format_lem type gp fp Reg.x Reg.f gp-IsFile fp-IsFile bit op) (
        step-IsOrderly (rounding_mode (bits_at bit 12 3)) _
          (rounding_mode-IsOrderly (bits_at bit 12 3)))

  pub rrm_format-fp-gp-IsOrderly :
      (op : Rd → Rs1 → Rs2 → RoundingMode → A) → IsOrderly (rrm_format type op fp gp bit)
  rrm_format-fp-gp-IsOrderly op =
      rw (rrm_format_lem type fp gp Reg.f Reg.x fp-IsFile gp-IsFile bit op) (
        step-IsOrderly (rounding_mode (bits_at bit 12 3)) _
          (rounding_mode-IsOrderly (bits_at bit 12 3)))

  pub rrm_no_rs2_format-IsOrderly :
      (op : Rd → Rs1 → RoundingMode → A) → IsOrderly (rrm_no_rs2_format type op fp fp bit)
  rrm_no_rs2_format-IsOrderly op =
      rw (rrm_no_rs2_format_lem type fp fp Reg.f Reg.f fp-IsFile fp-IsFile bit op) (
        step-IsOrderly (rounding_mode (bits_at bit 12 3)) _
          (rounding_mode-IsOrderly (bits_at bit 12 3)))

  pub rrm_no_rs2_format-gp-fp-IsOrderly :
      (op : Rd → Rs1 → RoundingMode → A) → IsOrderly (rrm_no_rs2_format type op gp fp bit)
  rrm_no_rs2_format-gp-fp-IsOrderly op =
      rw (rrm_no_rs2_format_lem type gp fp Reg.x Reg.f gp-IsFile fp-IsFile bit op) (
        step-IsOrderly (rounding_mode (bits_at bit 12 3)) _
          (rounding_mode-IsOrderly (bits_at bit 12 3)))

  pub rrm_no_rs2_format-fp-gp-IsOrderly :
      (op : Rd → Rs1 → RoundingMode → A) → IsOrderly (rrm_no_rs2_format type op fp gp bit)
  rrm_no_rs2_format-fp-gp-IsOrderly op =
      rw (rrm_no_rs2_format_lem type fp gp Reg.f Reg.x fp-IsFile gp-IsFile bit op) (
        step-IsOrderly (rounding_mode (bits_at bit 12 3)) _
          (rounding_mode-IsOrderly (bits_at bit 12 3)))

  pub rrm_no_rm_format-IsOrderly :
      (op : Rd → Rs1 → Rs2 → A) → IsOrderly (rrm_no_rm_format type op fp fp bit)
  rrm_no_rm_format-IsOrderly op =
      rw (rrm_no_rm_format_lem type fp fp Reg.f Reg.f fp-IsFile fp-IsFile bit op) (returns _)

  pub rrm_no_rm_format-gp-fp-IsOrderly :
      (op : Rd → Rs1 → Rs2 → A) → IsOrderly (rrm_no_rm_format type op gp fp bit)
  rrm_no_rm_format-gp-fp-IsOrderly op =
      rw (rrm_no_rm_format_lem type gp fp Reg.x Reg.f gp-IsFile fp-IsFile bit op) (returns _)

  pub rrm_no_rm_format-fp-gp-IsOrderly :
      (op : Rd → Rs1 → Rs2 → A) → IsOrderly (rrm_no_rm_format type op fp gp bit)
  rrm_no_rm_format-fp-gp-IsOrderly op =
      rw (rrm_no_rm_format_lem type fp gp Reg.f Reg.x fp-IsFile gp-IsFile bit op) (returns _)

  pub rrm_no_rs2_rm_format-IsOrderly :
      (op : Rd → Rs1 → A) → IsOrderly (rrm_no_rs2_rm_format type op fp fp bit)
  rrm_no_rs2_rm_format-IsOrderly op =
      rw (rrm_no_rs2_rm_format_lem type fp fp Reg.f Reg.f fp-IsFile fp-IsFile bit op) (returns _)

  pub rrm_no_rs2_rm_format-gp-fp-IsOrderly :
      (op : Rd → Rs1 → A) → IsOrderly (rrm_no_rs2_rm_format type op gp fp bit)
  rrm_no_rs2_rm_format-gp-fp-IsOrderly op =
      rw (rrm_no_rs2_rm_format_lem type gp fp Reg.x Reg.f gp-IsFile fp-IsFile bit op) (returns _)

  pub rrm_no_rs2_rm_format-fp-gp-IsOrderly :
      (op : Rd → Rs1 → A) → IsOrderly (rrm_no_rs2_rm_format type op fp gp bit)
  rrm_no_rs2_rm_format-fp-gp-IsOrderly op =
      rw (rrm_no_rs2_rm_format_lem type fp gp Reg.f Reg.x fp-IsFile gp-IsFile bit op) (returns _)

  pub r4_format-IsOrderly :
      (op : Rd → Rs1 → Rs2 → Rs3 → RoundingMode → A) → IsOrderly (r4_format type op fp bit)
  r4_format-IsOrderly op = rw (r4_format_lem type bit op) (
      step-IsOrderly (rounding_mode (bits_at bit 12 3)) _
        (rounding_mode-IsOrderly (bits_at bit 12 3)))
