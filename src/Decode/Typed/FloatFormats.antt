-- ===== src/Decode/Typed/FloatFormats.antt =====
-- The float formats of src/frontend/instruction.rs build typed instructions.
use double_jit_vm.Prelude.{ℕ, arith}
use double_jit_vm.Word.{bits_at}
use double_jit_vm.Instr.{Instr}
use double_jit_vm.Instr.Operand.{Reg, Rd, Rs1, Rs2, Rs3, RoundingMode}
use double_jit_vm.Decode.Format.{
  gp, fp, rounding_mode, rrm_format, rrm_no_rs2_format, rrm_no_rm_format, rrm_no_rs2_rm_format,
  r4_format,
}
use double_jit_vm.Decode.Format.Laws.{
  gp-IsFile, fp-IsFile, rrm_format_lem, rrm_no_rs2_format_lem, rrm_no_rm_format_lem,
  rrm_no_rs2_rm_format_lem, r4_format_lem,
}
use double_jit_vm.Decode.Typed.{IsTyped, Returns, step-Returns}
use double_jit_vm.Decode.Typed.Operands.{
  File, IsIn, RdIsIn, Rs1IsIn, Rs2IsIn, Rs3IsIn, RegTyped, MoveTyped, FmaTyped,
}

module _ {A : Type 0} (type : A → Instr) (bit : ℕ) where
  pub rrm_format-IsTyped :
      (op : Rd → Rs1 → Rs2 → RoundingMode → A)
      → ((d : Rd) (a : Rs1) (b : Rs2) (rm : RoundingMode)
          → RegTyped File.float File.float d a b
          → IsTyped (type (op d a b rm)))
      → Returns IsTyped (rrm_format type op fp fp bit)
  unfolding Returns RegTyped RdIsIn Rs1IsIn Rs2IsIn IsIn
  rrm_format-IsTyped op h = rw (rrm_format_lem type fp fp Reg.f Reg.f fp-IsFile fp-IsFile bit op) (
      step-Returns IsTyped (rounding_mode (bits_at bit 12 3)) _
        (λ rm. h _ _ _ rm (omega arith, omega arith, omega arith)))

  pub rrm_no_rs2_format-IsTyped :
      (op : Rd → Rs1 → RoundingMode → A)
      → ((d : Rd) (a : Rs1) (rm : RoundingMode)
          → MoveTyped File.float File.float d a
          → IsTyped (type (op d a rm)))
      → Returns IsTyped (rrm_no_rs2_format type op fp fp bit)
  unfolding Returns MoveTyped RdIsIn Rs1IsIn IsIn
  rrm_no_rs2_format-IsTyped op h =
      rw (rrm_no_rs2_format_lem type fp fp Reg.f Reg.f fp-IsFile fp-IsFile bit op) (
        step-Returns IsTyped (rounding_mode (bits_at bit 12 3)) _
          (λ rm. h _ _ rm (omega arith, omega arith)))

  pub rrm_no_rm_format-IsTyped :
      (op : Rd → Rs1 → Rs2 → A)
      → ((d : Rd) (a : Rs1) (b : Rs2)
          → RegTyped File.float File.float d a b
          → IsTyped (type (op d a b)))
      → Returns IsTyped (rrm_no_rm_format type op fp fp bit)
  unfolding Returns RegTyped RdIsIn Rs1IsIn Rs2IsIn IsIn
  rrm_no_rm_format-IsTyped op h =
      rw (rrm_no_rm_format_lem type fp fp Reg.f Reg.f fp-IsFile fp-IsFile bit op)
        (h _ _ _ (omega arith, omega arith, omega arith))

  pub rrm_no_rs2_rm_format-IsTyped :
      (op : Rd → Rs1 → A)
      → ((d : Rd) (a : Rs1) → MoveTyped File.float File.float d a → IsTyped (type (op d a)))
      → Returns IsTyped (rrm_no_rs2_rm_format type op fp fp bit)
  unfolding Returns MoveTyped RdIsIn Rs1IsIn IsIn
  rrm_no_rs2_rm_format-IsTyped op h =
      rw (rrm_no_rs2_rm_format_lem type fp fp Reg.f Reg.f fp-IsFile fp-IsFile bit op)
        (h _ _ (omega arith, omega arith))

  pub rrm_no_rs2_format-gp-fp-IsTyped :
      (op : Rd → Rs1 → RoundingMode → A)
      → ((d : Rd) (a : Rs1) (rm : RoundingMode)
          → MoveTyped File.integer File.float d a
          → IsTyped (type (op d a rm)))
      → Returns IsTyped (rrm_no_rs2_format type op gp fp bit)
  unfolding Returns MoveTyped RdIsIn Rs1IsIn IsIn
  rrm_no_rs2_format-gp-fp-IsTyped op h =
      rw (rrm_no_rs2_format_lem type gp fp Reg.x Reg.f gp-IsFile fp-IsFile bit op) (
        step-Returns IsTyped (rounding_mode (bits_at bit 12 3)) _
          (λ rm. h _ _ rm (omega arith, omega arith)))

  pub rrm_no_rm_format-gp-fp-IsTyped :
      (op : Rd → Rs1 → Rs2 → A)
      → ((d : Rd) (a : Rs1) (b : Rs2)
          → RegTyped File.integer File.float d a b
          → IsTyped (type (op d a b)))
      → Returns IsTyped (rrm_no_rm_format type op gp fp bit)
  unfolding Returns RegTyped RdIsIn Rs1IsIn Rs2IsIn IsIn
  rrm_no_rm_format-gp-fp-IsTyped op h =
      rw (rrm_no_rm_format_lem type gp fp Reg.x Reg.f gp-IsFile fp-IsFile bit op)
        (h _ _ _ (omega arith, omega arith, omega arith))

  pub rrm_no_rs2_rm_format-gp-fp-IsTyped :
      (op : Rd → Rs1 → A)
      → ((d : Rd) (a : Rs1) → MoveTyped File.integer File.float d a → IsTyped (type (op d a)))
      → Returns IsTyped (rrm_no_rs2_rm_format type op gp fp bit)
  unfolding Returns MoveTyped RdIsIn Rs1IsIn IsIn
  rrm_no_rs2_rm_format-gp-fp-IsTyped op h =
      rw (rrm_no_rs2_rm_format_lem type gp fp Reg.x Reg.f gp-IsFile fp-IsFile bit op)
        (h _ _ (omega arith, omega arith))

  pub rrm_no_rs2_format-fp-gp-IsTyped :
      (op : Rd → Rs1 → RoundingMode → A)
      → ((d : Rd) (a : Rs1) (rm : RoundingMode)
          → MoveTyped File.float File.integer d a
          → IsTyped (type (op d a rm)))
      → Returns IsTyped (rrm_no_rs2_format type op fp gp bit)
  unfolding Returns MoveTyped RdIsIn Rs1IsIn IsIn
  rrm_no_rs2_format-fp-gp-IsTyped op h =
      rw (rrm_no_rs2_format_lem type fp gp Reg.f Reg.x fp-IsFile gp-IsFile bit op) (
        step-Returns IsTyped (rounding_mode (bits_at bit 12 3)) _
          (λ rm. h _ _ rm (omega arith, omega arith)))

  pub rrm_no_rs2_rm_format-fp-gp-IsTyped :
      (op : Rd → Rs1 → A)
      → ((d : Rd) (a : Rs1) → MoveTyped File.float File.integer d a → IsTyped (type (op d a)))
      → Returns IsTyped (rrm_no_rs2_rm_format type op fp gp bit)
  unfolding Returns MoveTyped RdIsIn Rs1IsIn IsIn
  rrm_no_rs2_rm_format-fp-gp-IsTyped op h =
      rw (rrm_no_rs2_rm_format_lem type fp gp Reg.f Reg.x fp-IsFile gp-IsFile bit op)
        (h _ _ (omega arith, omega arith))

  pub r4_format-IsTyped :
      (op : Rd → Rs1 → Rs2 → Rs3 → RoundingMode → A)
      → ((d : Rd) (a : Rs1) (b : Rs2) (c : Rs3) (rm : RoundingMode)
          → FmaTyped d a b c
          → IsTyped (type (op d a b c rm)))
      → Returns IsTyped (r4_format type op fp bit)
  unfolding Returns FmaTyped RdIsIn Rs1IsIn Rs2IsIn Rs3IsIn IsIn
  r4_format-IsTyped op h = rw (r4_format_lem type bit op) (
      step-Returns IsTyped (rounding_mode (bits_at bit 12 3)) _
        (λ rm. h _ _ _ _ rm (omega arith, omega arith, omega arith, omega arith)))
