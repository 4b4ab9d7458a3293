-- ===== src/RoundTrip/Float.antt =====
-- Floating-point arithmetic with a rounding mode.
use double_jit_vm.Prelude.{ℕ, ◌+◌, ◌*◌, ◌%◌, ◌^◌, ◌<◌, ◌≡◌, refl, arith}
use double_jit_vm.Prelude.Outcome.{ok, ◌>>=◌, found}
use double_jit_vm.Word.{bits_at}
use double_jit_vm.Instr.{Instr}
use double_jit_vm.Instr.Operand.{Xx, Reg, Rd, Rs1, Rs2, Rs3, RoundingMode}
use double_jit_vm.Field.{funct7}
use double_jit_vm.Field.Laws.{funct7_lem}
use double_jit_vm.Isa.FloatOps.{mode_code, FloatOp, float_code, float_instr}
use double_jit_vm.Decode.Config.{Config}
use double_jit_vm.Decode.Format.{rrm_format, rounding_mode, fp}
use double_jit_vm.Decode.Format.Laws.{reg_at, fp-IsFile, rrm_format_lem}
use double_jit_vm.Decode.Float.{op_fp_arms}
use double_jit_vm.Decode.Parse.{opcode_arms, parse_word}
use double_jit_vm.Decode.Full.{parse_word-eq-arms}

pub rounding_mode-mode_code : (mode : RoundingMode) → rounding_mode (mode_code mode) ≡ ok mode
unfolding rounding_mode
rounding_mode-mode_code RoundingMode.rne = refl
rounding_mode-mode_code _ = refl

pub mode_code-lt : (mode : RoundingMode) → mode_code mode < 8
mode_code-lt RoundingMode.rne = omega arith
mode_code-lt _ = omega arith

-- `Rd(Reg::F(Xx::new(n)))` and its like.
abbrev pub f_rd : ℕ → Rd
f_rd n = Rd.reg (Reg.f (Xx.xx n))

abbrev pub f_rs1 : ℕ → Rs1
f_rs1 n = Rs1.reg (Reg.f (Xx.xx n))

abbrev pub f_rs2 : ℕ → Rs2
f_rs2 n = Rs2.reg (Reg.f (Xx.xx n))

abbrev pub f_rs3 : ℕ → Rs3
f_rs3 n = Rs3.reg (Reg.f (Xx.xx n))

float_form :
    (w : ℕ) {A : Type 0} (type : A → Instr) (op : Rd → Rs1 → Rs2 → RoundingMode → A)
    → rrm_format type op fp fp w ≡ (
        rounding_mode (bits_at w 12 3) >>= λ rm. ok (
          type (
            op
              (Rd.reg (reg_at Reg.f w 7))
              (Rs1.reg (reg_at Reg.f w 15))
              (Rs2.reg (reg_at Reg.f w 20))
              rm)))
float_form w type op = rrm_format_lem type fp fp Reg.f Reg.f fp-IsFile fp-IsFile w op

opcode_arms-float :
    (cfg : Config) (op : FloatOp) (w : ℕ)
    → funct7 w ≡ (float_code op).funct7
    → opcode_arms cfg w (float_code op).opcode
      ≡ found (
          rounding_mode (bits_at w 12 3) >>= λ rm. ok (
            float_instr cfg op
              (Rd.reg (reg_at Reg.f w 7))
              (Rs1.reg (reg_at Reg.f w 15))
              (Rs2.reg (reg_at Reg.f w 20))
              rm))
unfolding opcode_arms
opcode_arms-float cfg FloatOp.fadd_s w h7 = rw h7 (unfold op_fp_arms in simp (float_form w))
opcode_arms-float cfg _ w h7 = rw h7 (unfold op_fp_arms in simp (float_form w))

float_code_low :
    (op : FloatOp)
    → ((float_code op).opcode % 4 ≡ 3)
      × ((float_code op).opcode < 128)
      × ((float_code op).funct7 < 128)
float_code_low FloatOp.fadd_s = omega arith
float_code_low _ = omega arith

-- The word of an arithmetic instruction over the float registers.
abbrev pub float_word : FloatOp → RoundingMode → ℕ → ℕ → ℕ → ℕ
float_word op mode d a b =
    (float_code op).opcode
    + d * 2 ^ 7
    + mode_code mode * 2 ^ 12
    + a * 2 ^ 15
    + b * 2 ^ 20
    + (float_code op).funct7 * 2 ^ 25

-- The word of a float addition, subtraction, multiplication or division, single or double, decodes
-- to it over float registers, with its rounding mode.
pub parse_word-float_word :
    (cfg : Config) (op : FloatOp) (mode : RoundingMode) (d a b : ℕ)
    → d < 32
    → a < 32
    → b < 32
    → parse_word cfg (float_word op mode d a b)
      ≡ ok (float_instr cfg op (f_rd d) (f_rs1 a) (f_rs2 b) mode)
parse_word-float_word cfg op mode d a b hd ha hb =
    let low = float_code_low op in
    let m = mode_code-lt mode in
    let w = float_word op mode d a b in
    let field7 : funct7 w ≡ (float_code op).funct7 = omega (arith, funct7_lem w) in
    let at7 : bits_at w 7 5 ≡ d = omega arith in
    let at12 : bits_at w 12 3 ≡ mode_code mode = omega arith in
    let at15 : bits_at w 15 5 ≡ a = omega arith in
    let at20 : bits_at w 20 5 ≡ b = omega arith in
    rw (
      parse_word-eq-arms cfg w (float_code op).opcode (omega arith) low.0,
      opcode_arms-float cfg op w field7,
      at12,
      rounding_mode-mode_code mode,
      at7,
      at15,
      at20,
    )
