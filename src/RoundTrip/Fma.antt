-- ===== src/RoundTrip/Fma.antt =====
-- Fused multiply-add.
use double_jit_vm.Prelude.{ℕ, ◌+◌, ◌*◌, ◌%◌, ◌^◌, ◌<◌, ◌≡◌, arith}
use double_jit_vm.Prelude.Outcome.{ok, ◌>>=◌, found}
use double_jit_vm.Word.{bits_at}
use double_jit_vm.Instr.Operand.{Reg, Rd, Rs1, Rs2, Rs3, RoundingMode}
use double_jit_vm.Field.{funct2}
use double_jit_vm.Field.Laws.{funct2_lem}
use double_jit_vm.Isa.FloatOps.{mode_code, FmaOp, fma_code, fma_instr}
use double_jit_vm.Decode.Config.{Config}
use double_jit_vm.Decode.Format.{rounding_mode}
use double_jit_vm.Decode.Format.Laws.{reg_at, r4_format_lem}
use double_jit_vm.Decode.Float.{fmadd_arms, fmsub_arms, fnmadd_arms, fnmsub_arms}
use double_jit_vm.Decode.Parse.{opcode_arms, parse_word}
use double_jit_vm.Decode.Full.{parse_word-eq-arms}
use double_jit_vm.RoundTrip.Float.{mode_code-lt, rounding_mode-mode_code, f_rd, f_rs1, f_rs2, f_rs3}

opcode_arms-fma :
    (cfg : Config) (op : FmaOp) (w : ℕ)
    → funct2 w ≡ (fma_code op).funct7
    → opcode_arms cfg w (fma_code op).opcode
      ≡ found (
          rounding_mode (bits_at w 12 3) >>= λ rm. ok (
            fma_instr cfg op
              (Rd.reg (reg_at Reg.f w 7))
              (Rs1.reg (reg_at Reg.f w 15))
              (Rs2.reg (reg_at Reg.f w 20))
              (Rs3.reg (reg_at Reg.f w 27))
              rm))
unfolding opcode_arms
opcode_arms-fma cfg FmaOp.fmadd_s w h2 = rw h2 (unfold fmadd_arms in simp r4_format_lem)
opcode_arms-fma cfg _ w h2 =
    rw h2 (unfold fmadd_arms fmsub_arms fnmadd_arms fnmsub_arms in simp r4_format_lem)

fma_code_low :
    (op : FmaOp)
    → ((fma_code op).opcode % 4 ≡ 3) × ((fma_code op).opcode < 128) × ((fma_code op).funct7 < 4)
fma_code_low FmaOp.fmadd_s = omega arith
fma_code_low _ = omega arith

-- The word of a fused multiply-add: a third source stands above `funct2`.
abbrev pub fma_word : FmaOp → RoundingMode → ℕ → ℕ → ℕ → ℕ → ℕ
fma_word op mode d a b c =
    (fma_code op).opcode
    + d * 2 ^ 7
    + mode_code mode * 2 ^ 12
    + a * 2 ^ 15
    + b * 2 ^ 20
    + (fma_code op).funct7 * 2 ^ 25
    + c * 2 ^ 27

-- The word of a fused multiply-add, single or double, decodes to it over its four float registers,
-- with its rounding mode.
pub parse_word-fma_word :
    (cfg : Config) (op : FmaOp) (mode : RoundingMode) (d a b c : ℕ)
    → d < 32
    → a < 32
    → b < 32
    → c < 32
    → parse_word cfg (fma_word op mode d a b c)
      ≡ ok (fma_instr cfg op (f_rd d) (f_rs1 a) (f_rs2 b) (f_rs3 c) mode)
parse_word-fma_word cfg op mode d a b c hd ha hb hc =
    let low = fma_code_low op in
    let m = mode_code-lt mode in
    let w = fma_word op mode d a b c in
    let field2 : funct2 w ≡ (fma_code op).funct7 = omega (arith, funct2_lem w) in
    let at7 : bits_at w 7 5 ≡ d = omega arith in
    let at12 : bits_at w 12 3 ≡ mode_code mode = omega arith in
    let at15 : bits_at w 15 5 ≡ a = omega arith in
    let at20 : bits_at w 20 5 ≡ b = omega arith in
    let at27 : bits_at w 27 5 ≡ c = omega arith in
    rw (
      parse_word-eq-arms cfg w (fma_code op).opcode (omega arith) low.0,
      opcode_arms-fma cfg op w field2,
      at12,
      rounding_mode-mode_code mode,
      at7,
      at15,
      at20,
      at27,
    )
