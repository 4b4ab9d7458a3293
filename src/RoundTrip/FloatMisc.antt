-- ===== src/RoundTrip/FloatMisc.antt =====
-- Floating-point square roots, conversions, sign injections, comparisons and moves.
use double_jit_vm.Prelude.{ℕ, ◌<◌, ◌≡◌, refl, arith}
use double_jit_vm.Prelude.Outcome.{Outcome, ok, ◌>>=◌, found}
use double_jit_vm.Word.{bits_at}
use double_jit_vm.Instr.{Instr}
use double_jit_vm.Instr.Operand.{Xx, Reg, Rd, Rs1, Rs2, RoundingMode}
use double_jit_vm.Field.{funct7, funct3, rs2}
use double_jit_vm.Field.Laws.{funct7_lem, funct3_lem, rs2_lem}
use double_jit_vm.Isa.FloatOps.{mode_code}
use double_jit_vm.Isa.FloatConvert.{
  ConvertOp, convert_code, convert_to, convert_from, convert_instr,
}
use double_jit_vm.Isa.FloatMisc.{
  PairOp, pair_code, pair_to, pair_instr, MoveOp, move_code, move_to, move_from, move_instr,
  FloatMisc, AreRegisters, op_fp_word, misc_word, misc_instr,
}
use double_jit_vm.Decode.Config.{Config}
use double_jit_vm.Decode.Format.{
  rounding_mode, fp, gp, rrm_no_rs2_format, rrm_no_rm_format, rrm_no_rs2_rm_format,
}
use double_jit_vm.Decode.Format.Laws.{
  reg_at, fp-IsFile, gp-IsFile, rrm_no_rs2_format_lem, rrm_no_rm_format_lem,
  rrm_no_rs2_rm_format_lem,
}
use double_jit_vm.Decode.Float.{op_fp_arms}
use double_jit_vm.Decode.Parse.{opcode_arms, parse_word}
use double_jit_vm.Decode.Full.{parse_word-eq-arms}
use double_jit_vm.RoundTrip.Float.{rounding_mode-mode_code, mode_code-lt}

-- The formats in closed form, at the register files of the destination and of the source.
abbrev ConvertForm :
    {A : Type 0} (type : A → Instr) (rd_reg rs_reg : ℕ → Outcome Reg)
    (rd_file rs_file : Xx 32 → Reg)
    → Type 0
ConvertForm {A} type rd_reg rs_reg rd_file rs_file =
    (w : ℕ) (op : Rd → Rs1 → RoundingMode → A)
    → rrm_no_rs2_format type op rd_reg rs_reg w ≡ (
        rounding_mode (bits_at w 12 3) >>= λ rm.
        ok (type (op (Rd.reg (reg_at rd_file w 7)) (Rs1.reg (reg_at rs_file w 15)) rm)))

abbrev PairForm :
    {A : Type 0} (type : A → Instr) (rd_reg : ℕ → Outcome Reg) (rd_file : Xx 32 → Reg) → Type 0
PairForm {A} type rd_reg rd_file =
    (w : ℕ) (op : Rd → Rs1 → Rs2 → A)
    → rrm_no_rm_format type op rd_reg fp w
      ≡ ok (
          type (
            op (Rd.reg (reg_at rd_file w 7)) (Rs1.reg (reg_at Reg.f w 15))
              (Rs2.reg (reg_at Reg.f w 20))))

abbrev MoveForm :
    {A : Type 0} (type : A → Instr) (rd_reg rs_reg : ℕ → Outcome Reg)
    (rd_file rs_file : Xx 32 → Reg)
    → Type 0
MoveForm {A} type rd_reg rs_reg rd_file rs_file =
    (w : ℕ) (op : Rd → Rs1 → A)
    → rrm_no_rs2_rm_format type op rd_reg rs_reg w
      ≡ ok (type (op (Rd.reg (reg_at rd_file w 7)) (Rs1.reg (reg_at rs_file w 15))))

convert_ff : {A : Type 0} (type : A → Instr) → ConvertForm type fp fp Reg.f Reg.f
convert_ff type w = rrm_no_rs2_format_lem type fp fp Reg.f Reg.f fp-IsFile fp-IsFile w

convert_xf : {A : Type 0} (type : A → Instr) → ConvertForm type gp fp Reg.x Reg.f
convert_xf type w = rrm_no_rs2_format_lem type gp fp Reg.x Reg.f gp-IsFile fp-IsFile w

convert_fx : {A : Type 0} (type : A → Instr) → ConvertForm type fp gp Reg.f Reg.x
convert_fx type w = rrm_no_rs2_format_lem type fp gp Reg.f Reg.x fp-IsFile gp-IsFile w

pair_ff : {A : Type 0} (type : A → Instr) → PairForm type fp Reg.f
pair_ff type w = rrm_no_rm_format_lem type fp fp Reg.f Reg.f fp-IsFile fp-IsFile w

pair_xf : {A : Type 0} (type : A → Instr) → PairForm type gp Reg.x
pair_xf type w = rrm_no_rm_format_lem type gp fp Reg.x Reg.f gp-IsFile fp-IsFile w

move_xf : {A : Type 0} (type : A → Instr) → MoveForm type gp fp Reg.x Reg.f
move_xf type w = rrm_no_rs2_rm_format_lem type gp fp Reg.x Reg.f gp-IsFile fp-IsFile w

move_fx : {A : Type 0} (type : A → Instr) → MoveForm type fp gp Reg.f Reg.x
move_fx type w = rrm_no_rs2_rm_format_lem type fp gp Reg.f Reg.x fp-IsFile gp-IsFile w

op_fp_arms-convert :
    (w : ℕ) (op : ConvertOp) (f3 : ℕ)
    → op_fp_arms (convert_code op).funct7 f3 (convert_code op).sub w
      ≡ found (
          rounding_mode (bits_at w 12 3) >>= λ rm. ok (
            convert_instr op
              (Rd.reg (reg_at (convert_to op) w 7))
              (Rs1.reg (reg_at (convert_from op) w 15))
              rm))
unfolding op_fp_arms
op_fp_arms-convert w ConvertOp.fsqrt_s f3 = simp (convert_ff, convert_xf, convert_fx)
op_fp_arms-convert w _ f3 = simp (convert_ff, convert_xf, convert_fx)

op_fp_arms-pair :
    (w : ℕ) (op : PairOp) (r2 : ℕ)
    → op_fp_arms (pair_code op).funct7 (pair_code op).sub r2 w
      ≡ found (
          ok (
            pair_instr op
              (Rd.reg (reg_at (pair_to op) w 7))
              (Rs1.reg (reg_at Reg.f w 15))
              (Rs2.reg (reg_at Reg.f w 20))))
unfolding op_fp_arms
op_fp_arms-pair w PairOp.fsgnj_s r2 = simp (pair_ff, pair_xf)
op_fp_arms-pair w _ r2 = simp (pair_ff, pair_xf)

op_fp_arms-move :
    (w : ℕ) (op : MoveOp)
    → op_fp_arms (move_code op).funct7 (move_code op).sub 0 w
      ≡ found (
          ok (
            move_instr op
              (Rd.reg (reg_at (move_to op) w 7))
              (Rs1.reg (reg_at (move_from op) w 15))))
unfolding op_fp_arms
op_fp_arms-move w MoveOp.fmv_x_w = simp (move_xf, move_fx)
op_fp_arms-move w _ = simp (move_xf, move_fx)

opcode_arms-op_fp :
    (cfg : Config) (w : ℕ)
    → opcode_arms cfg w 0b1010011 ≡ op_fp_arms (funct7 w) (funct3 w) (rs2 w) w
unfolding opcode_arms
opcode_arms-op_fp cfg w = refl

-- The fields of such a word.
module _ (f7 f3 r2 d a : ℕ) (h7 : f7 < 128) (h3 : f3 < 8) (h2 : r2 < 32) (hd : d < 32)
    (ha : a < 32) where
  parse_word-op_fp :
      (cfg : Config) (i : Instr)
      → op_fp_arms f7 f3 r2 (op_fp_word f7 f3 r2 d a) ≡ found (ok i)
      → parse_word cfg (op_fp_word f7 f3 r2 d a) ≡ ok i
  parse_word-op_fp cfg i e =
      let w = op_fp_word f7 f3 r2 d a in
      let field7 : funct7 w ≡ f7 = omega (arith, funct7_lem w) in
      let field3 : funct3 w ≡ f3 = omega (arith, funct3_lem w) in
      let field2 : rs2 w ≡ r2 = omega (arith, rs2_lem w) in
      rw
        (
          parse_word-eq-arms cfg w 0b1010011 (omega arith) (omega arith),
          opcode_arms-op_fp cfg w,
          field7,
          field3,
          field2,
          e,
        )
        refl

  op_fp_word-fields :
      (bits_at (op_fp_word f7 f3 r2 d a) 7 5 ≡ d)
      × (bits_at (op_fp_word f7 f3 r2 d a) 12 3 ≡ f3)
      × (bits_at (op_fp_word f7 f3 r2 d a) 15 5 ≡ a)
      × (bits_at (op_fp_word f7 f3 r2 d a) 20 5 ≡ r2)
  op_fp_word-fields = (omega arith, omega arith, omega arith, omega arith)

convert_code-lt : (op : ConvertOp) → ((convert_code op).funct7 < 128) × ((convert_code op).sub < 32)
convert_code-lt ConvertOp.fsqrt_s = omega arith
convert_code-lt _ = omega arith

pair_code-lt : (op : PairOp) → ((pair_code op).funct7 < 128) × ((pair_code op).sub < 8)
pair_code-lt PairOp.fsgnj_s = omega arith
pair_code-lt _ = omega arith

move_code-lt : (op : MoveOp) → ((move_code op).funct7 < 128) × ((move_code op).sub < 8)
move_code-lt MoveOp.fmv_x_w = omega arith
move_code-lt _ = omega arith

-- The word of a float square root, conversion, sign injection, minimum, maximum, comparison, move or
-- class, single or double, over registers below 32, decodes to it, each operand in its register file
-- and with its rounding mode where it has one.
pub parse_word-misc_word :
    (cfg : Config) (i : FloatMisc)
    → AreRegisters i
    → parse_word cfg (misc_word i) ≡ ok (misc_instr i)
parse_word-misc_word cfg (FloatMisc.convert op mode d a) h =
    let c = convert_code-lt op in
    let m = mode_code-lt mode in
    let w = misc_word (FloatMisc.convert op mode d a) in
    let at = op_fp_word-fields _ (mode_code mode) _ d a c.0 m c.1 h.0 h.1 in
    parse_word-op_fp _ (mode_code mode) _ d a c.0 m c.1 h.0 h.1 cfg _ (
      rw (op_fp_arms-convert w op (mode_code mode), at.0, at.1, at.2, rounding_mode-mode_code mode)
        refl)
parse_word-misc_word cfg (FloatMisc.pair op d a b) h =
    let c = pair_code-lt op in
    let w = misc_word (FloatMisc.pair op d a b) in
    let at = op_fp_word-fields _ _ b d a c.0 c.1 h.2 h.0 h.1 in
    parse_word-op_fp _ _ b d a c.0 c.1 h.2 h.0 h.1 cfg _
      (rw (op_fp_arms-pair w op b, at.0, at.2, at.3) refl)
parse_word-misc_word cfg (FloatMisc.move op d a) h =
    let c = move_code-lt op in
    let w = misc_word (FloatMisc.move op d a) in
    let at = op_fp_word-fields _ _ 0 d a c.0 c.1 (omega arith) h.0 h.1 in
    parse_word-op_fp _ _ 0 d a c.0 c.1 (omega arith) h.0 h.1 cfg _
      (rw (op_fp_arms-move w op, at.0, at.2) refl)
