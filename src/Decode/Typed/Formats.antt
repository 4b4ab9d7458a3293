-- ===== src/Decode/Typed/Formats.antt =====
-- The formats of src/frontend/instruction.rs over integer registers build typed instructions.
use double_jit_vm.Prelude.{ℕ, arith}
use double_jit_vm.Instr.{Instr}
use double_jit_vm.Instr.Operand.{
  Rd, Rs, Rs1, Rs2, Aq, Rl, Shamt, FenceFm, FencePred, FenceSucc, Imm32, CsrAddr, UImm,
}
use double_jit_vm.Decode.Format.{
  gp, i_format, b_format, rd_rs_format, rs1_rs2_format, r_format, s_format, j_format, u_format,
  r_shamt_format, fence_format, zicsr_rs1_format, zicsr_uimm_format, ra_format, ra_only_rs1_format,
}
use double_jit_vm.Decode.Format.Laws.{
  i_format_lem, b_format_lem, rd_rs_format_lem, rs1_rs2_format_lem, r_format_lem, s_format_lem,
  j_format_lem, u_format_lem, r_shamt_format_lem, fence_format_lem, zicsr_rs1_format_lem,
  zicsr_uimm_format_lem, ra_format_lem, ra_only_rs1_format_lem,
}
use double_jit_vm.Decode.Typed.{IsTyped, Returns}
use double_jit_vm.Decode.Typed.Fields.{
  itype_immediate-fits, btype_immediate-fits, jtype_immediate-fits, stype_immediate-fits,
}
use double_jit_vm.Decode.Typed.Operands.{
  File, IsIn, RdIsIn, RsIsIn, Rs1IsIn, Rs2IsIn, ShamtFits, ImmFits, CsrFits, UImmFits, FenceFits,
  RegTyped, MoveTyped, UnaryTyped, PairTyped, UpperTyped, ImmTyped, StoreTyped, ShiftTyped,
  FenceTyped, CsrTyped, CsrImmTyped,
}

module _ {A : Type 0} (type : A → Instr) (bit : ℕ) where
  pub i_format-IsTyped :
      (op : Rd → Rs1 → Imm32 11 0 → A)
      → ((d : Rd) (a : Rs1) (i : Imm32 11 0) → ImmTyped d a i → IsTyped (type (op d a i)))
      → Returns IsTyped (i_format type op gp bit)
  unfolding Returns ImmTyped RdIsIn Rs1IsIn IsIn ImmFits
  i_format-IsTyped op h =
      rw (i_format_lem type bit op) (h _ _ _ (omega arith, omega arith, itype_immediate-fits bit))

  pub b_format-IsTyped :
      (op : Rs1 → Rs2 → Imm32 12 1 → A)
      → ((a : Rs1) (b : Rs2) (i : Imm32 12 1) → StoreTyped a b i → IsTyped (type (op a b i)))
      → Returns IsTyped (b_format type op gp bit)
  unfolding Returns StoreTyped Rs1IsIn Rs2IsIn IsIn ImmFits
  b_format-IsTyped op h =
      rw (b_format_lem type bit op) (h _ _ _ (omega arith, omega arith, btype_immediate-fits bit))

  pub rd_rs_format-IsTyped :
      (op : Rd → Rs → A)
      → ((d : Rd) (a : Rs) → UnaryTyped d a → IsTyped (type (op d a)))
      → Returns IsTyped (rd_rs_format type op gp bit)
  unfolding Returns UnaryTyped RdIsIn RsIsIn IsIn
  rd_rs_format-IsTyped op h = rw (rd_rs_format_lem type bit op) (h _ _ (omega arith, omega arith))

  pub rs1_rs2_format-IsTyped :
      (op : Rs1 → Rs2 → A)
      → ((a : Rs1) (b : Rs2) → PairTyped a b → IsTyped (type (op a b)))
      → Returns IsTyped (rs1_rs2_format type op gp bit)
  unfolding Returns PairTyped Rs1IsIn Rs2IsIn IsIn
  rs1_rs2_format-IsTyped op h =
      rw (rs1_rs2_format_lem type bit op) (h _ _ (omega arith, omega arith))

  pub r_format-IsTyped :
      (op : Rd → Rs1 → Rs2 → A)
      → ((d : Rd) (a : Rs1) (b : Rs2)
          → RegTyped File.integer File.integer d a b
          → IsTyped (type (op d a b)))
      → Returns IsTyped (r_format type op gp bit)
  unfolding Returns RegTyped RdIsIn Rs1IsIn Rs2IsIn IsIn
  r_format-IsTyped op h =
      rw (r_format_lem type bit op) (h _ _ _ (omega arith, omega arith, omega arith))

  pub s_format-IsTyped :
      (op : Rs1 → Rs2 → Imm32 11 0 → A)
      → ((a : Rs1) (b : Rs2) (i : Imm32 11 0) → StoreTyped a b i → IsTyped (type (op a b i)))
      → Returns IsTyped (s_format type op gp bit)
  unfolding Returns StoreTyped Rs1IsIn Rs2IsIn IsIn ImmFits
  s_format-IsTyped op h =
      rw (s_format_lem type bit op) (h _ _ _ (omega arith, omega arith, stype_immediate-fits bit))

  pub j_format-IsTyped :
      (op : Rd → Imm32 20 1 → A)
      → ((d : Rd) (i : Imm32 20 1) → UpperTyped d i → IsTyped (type (op d i)))
      → Returns IsTyped (j_format type op gp bit)
  unfolding Returns UpperTyped RdIsIn IsIn ImmFits
  j_format-IsTyped op h =
      rw (j_format_lem type bit op) (h _ _ (omega arith, jtype_immediate-fits bit))

  pub u_format-IsTyped :
      (op : Rd → Imm32 31 12 → A)
      → ((d : Rd) (i : Imm32 31 12) → UpperTyped d i → IsTyped (type (op d i)))
      → Returns IsTyped (u_format type op gp bit)
  unfolding Returns UpperTyped RdIsIn IsIn ImmFits
  u_format-IsTyped op h =
      rw (u_format_lem type bit op) (h _ _ (omega arith, itype_immediate-fits bit))

  pub r_shamt_format-IsTyped :
      (op : Rd → Rs1 → Shamt → A)
      → ((d : Rd) (a : Rs1) (n : Shamt) → ShiftTyped d a n → IsTyped (type (op d a n)))
      → Returns IsTyped (r_shamt_format type op gp bit)
  unfolding Returns ShiftTyped RdIsIn Rs1IsIn IsIn ShamtFits
  r_shamt_format-IsTyped op h =
      rw (r_shamt_format_lem type bit op) (h _ _ _ (omega arith, omega arith, omega arith))

  pub fence_format-IsTyped :
      (op : Rd → Rs1 → FenceSucc → FencePred → FenceFm → A)
      → ((d : Rd) (a : Rs1) (s : FenceSucc) (p : FencePred) (m : FenceFm)
          → FenceTyped d a s p m
          → IsTyped (type (op d a s p m)))
      → Returns IsTyped (fence_format type op gp bit)
  unfolding Returns FenceTyped RdIsIn Rs1IsIn IsIn FenceFits
  fence_format-IsTyped op h =
      rw (fence_format_lem type bit op)
        (h _ _ _ _ _ (omega arith, omega arith, (omega arith, omega arith, omega arith)))

  pub zicsr_rs1_format-IsTyped :
      (op : Rd → Rs1 → CsrAddr → A)
      → ((d : Rd) (a : Rs1) (c : CsrAddr) → CsrTyped d a c → IsTyped (type (op d a c)))
      → Returns IsTyped (zicsr_rs1_format type op gp bit)
  unfolding Returns CsrTyped RdIsIn Rs1IsIn IsIn CsrFits ImmFits
  zicsr_rs1_format-IsTyped op h =
      rw (zicsr_rs1_format_lem type bit op)
        (h _ _ _ (omega arith, omega arith, itype_immediate-fits bit))

  pub zicsr_uimm_format-IsTyped :
      (op : Rd → UImm → CsrAddr → A)
      → ((d : Rd) (u : UImm) (c : CsrAddr) → CsrImmTyped d u c → IsTyped (type (op d u c)))
      → Returns IsTyped (zicsr_uimm_format type op gp bit)
  unfolding Returns CsrImmTyped RdIsIn IsIn UImmFits CsrFits ImmFits
  zicsr_uimm_format-IsTyped op h =
      rw (zicsr_uimm_format_lem type bit op)
        (h _ _ _ (omega arith, omega arith, itype_immediate-fits bit))

  pub ra_format-IsTyped :
      (op : Rd → Rs1 → Rs2 → Aq → Rl → A)
      → ((d : Rd) (a : Rs1) (b : Rs2) (aq : Aq) (rl : Rl)
          → RegTyped File.integer File.integer d a b
          → IsTyped (type (op d a b aq rl)))
      → Returns IsTyped (ra_format type op gp bit)
  unfolding Returns RegTyped RdIsIn Rs1IsIn Rs2IsIn IsIn
  ra_format-IsTyped op h =
      rw (ra_format_lem type bit op) (h _ _ _ _ _ (omega arith, omega arith, omega arith))

  pub ra_only_rs1_format-IsTyped :
      (op : Rd → Rs1 → Aq → Rl → A)
      → ((d : Rd) (a : Rs1) (aq : Aq) (rl : Rl)
          → MoveTyped File.integer File.integer d a
          → IsTyped (type (op d a aq rl)))
      → Returns IsTyped (ra_only_rs1_format type op gp bit)
  unfolding Returns MoveTyped RdIsIn Rs1IsIn IsIn
  ra_only_rs1_format-IsTyped op h =
      rw (ra_only_rs1_format_lem type bit op) (h _ _ _ _ (omega arith, omega arith))
