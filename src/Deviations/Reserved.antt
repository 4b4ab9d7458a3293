-- ===== src/Deviations/Reserved.antt =====
-- The M extension stands under `_` of the match on `funct7`: any other value is taken for it.
use double_jit_vm.Prelude.{
  ℕ, ◌<◌, ◌≡◌, Bool, true, false, refl, ◌==◌, ◌||◌, ◌&&◌, if◌then◌else◌, none, some, arith,
}
use double_jit_vm.Prelude.Outcome.{ok}
use double_jit_vm.Word.{bits_at}
use double_jit_vm.Instr.Operand.{Reg, Rd, Rs1, Rs2}
use double_jit_vm.Field.{funct3, funct7}
use double_jit_vm.Field.Laws.{funct3_lem, funct7_lem}
use double_jit_vm.Isa.Words.{r_word, code}
use double_jit_vm.Isa.RegOps.{RegOp, reg_code, reg_instr}
use double_jit_vm.Compressed.Quadrants.{x_rd, x_rs1, x_rs2}
use double_jit_vm.Decode.Config.{Config}
use double_jit_vm.Decode.Format.Laws.{reg_at, r_format_lem}
use double_jit_vm.Decode.Op.{op_arms, op_mul, op32_arms, op32_bit, op32_mul}
use double_jit_vm.Decode.Parse.{opcode_arms, parse_op, parse_op32, parse_word}
use double_jit_vm.Decode.Full.{parse_word-eq-arms}
use double_jit_vm.RoundTrip.Reg.{reg_code_low}

-- The values of `funct7` that the code has an arm of the base set or of B for, whatever `funct3` is:
-- in `OP`, and in `OP-32`.
unfoldable pub is_named : (opcode f7 : ℕ) → Bool
is_named opcode f7 =
    if opcode == 0b0110011
    then (f7 == 0b0000000 || f7 == 0b0100000 || f7 == 0b0110000 || f7 == 0b0110100)
      || (f7 == 0b0010100 || f7 == 0b0100100 || f7 == 0b0010000 || f7 == 0b0000101)
    else (f7 == 0b0000000 || f7 == 0b0100000 || f7 == 0b0110000)
      || (f7 == 0b0010000 || f7 == 0b0000100)

dead_arm : (test : Bool) → (test && false) ≡ false
dead_arm true = refl
dead_arm false = refl

op_arms-reserved :
    (cfg : Config) (f3 f7 w : ℕ) → is_named 0b0110011 f7 ≡ false → op_arms cfg f3 f7 w ≡ ok none
unfolding op_arms is_named
op_arms-reserved cfg f3 f7 w h =
    let t0 : (f7 == 0b0000000) ≡ false = ground arith in
    let t1 : (f7 == 0b0100000) ≡ false = ground arith in
    let t2 : (f7 == 0b0110000) ≡ false = ground arith in
    let t3 : (f7 == 0b0110100) ≡ false = ground arith in
    let t4 : (f7 == 0b0010100) ≡ false = ground arith in
    let t5 : (f7 == 0b0100100) ≡ false = ground arith in
    let t6 : (f7 == 0b0010000) ≡ false = ground arith in
    let t7 : (f7 == 0b0000101) ≡ false = ground arith in
    rw (t0, t1, t2, t3, t4, t5, t6, t7) (simp dead_arm)

op32_arms-reserved :
    (cfg : Config) (f3 f7 w : ℕ) → is_named 0b0111011 f7 ≡ false → op32_arms cfg f3 f7 w ≡ ok none
unfolding op32_arms is_named
op32_arms-reserved cfg f3 f7 w h = ground arith

op32_bit-reserved :
    (cfg : Config) (f3 f7 w : ℕ) → is_named 0b0111011 f7 ≡ false → op32_bit cfg f3 f7 w ≡ ok none
unfolding op32_bit is_named
op32_bit-reserved cfg f3 f7 w h = ground arith

opcode_arms-reserved :
    (cfg : Config) (op : RegOp) (w : ℕ)
    → (reg_code op).funct7 ≡ 1
    → funct3 w ≡ (reg_code op).funct3
    → is_named (reg_code op).opcode (funct7 w) ≡ false
    → opcode_arms cfg w (reg_code op).opcode
      ≡ ok (
          some (
            reg_instr cfg op
              (Rd.reg (reg_at Reg.x w 7))
              (Rs1.reg (reg_at Reg.x w 15))
              (Rs2.reg (reg_at Reg.x w 20))))
unfolding opcode_arms parse_op parse_op32
opcode_arms-reserved cfg RegOp.mul w h1 h3 h7 =
    rw (h3, op_arms-reserved cfg (reg_code RegOp.mul).funct3 (funct7 w) w h7)
      (unfold op_mul in simp r_format_lem)
opcode_arms-reserved cfg RegOp.mulh w h1 h3 h7 =
    rw (h3, op_arms-reserved cfg (reg_code RegOp.mulh).funct3 (funct7 w) w h7)
      (unfold op_mul in simp r_format_lem)
opcode_arms-reserved cfg RegOp.mulhsu w h1 h3 h7 =
    rw (h3, op_arms-reserved cfg (reg_code RegOp.mulhsu).funct3 (funct7 w) w h7)
      (unfold op_mul in simp r_format_lem)
opcode_arms-reserved cfg RegOp.mulhu w h1 h3 h7 =
    rw (h3, op_arms-reserved cfg (reg_code RegOp.mulhu).funct3 (funct7 w) w h7)
      (unfold op_mul in simp r_format_lem)
opcode_arms-reserved cfg RegOp.div w h1 h3 h7 =
    rw (h3, op_arms-reserved cfg (reg_code RegOp.div).funct3 (funct7 w) w h7)
      (unfold op_mul in simp r_format_lem)
opcode_arms-reserved cfg RegOp.divu w h1 h3 h7 =
    rw (h3, op_arms-reserved cfg (reg_code RegOp.divu).funct3 (funct7 w) w h7)
      (unfold op_mul in simp r_format_lem)
opcode_arms-reserved cfg RegOp.rem w h1 h3 h7 =
    rw (h3, op_arms-reserved cfg (reg_code RegOp.rem).funct3 (funct7 w) w h7)
      (unfold op_mul in simp r_format_lem)
opcode_arms-reserved cfg RegOp.remu w h1 h3 h7 =
    rw (h3, op_arms-reserved cfg (reg_code RegOp.remu).funct3 (funct7 w) w h7)
      (unfold op_mul in simp r_format_lem)
opcode_arms-reserved cfg RegOp.mulw w h1 h3 h7 =
    rw
      (
        h3,
        op32_arms-reserved cfg (reg_code RegOp.mulw).funct3 (funct7 w) w h7,
        op32_bit-reserved cfg (reg_code RegOp.mulw).funct3 (funct7 w) w h7,
      )
      (unfold op32_mul in simp r_format_lem)
opcode_arms-reserved cfg RegOp.divw w h1 h3 h7 =
    rw
      (
        h3,
        op32_arms-reserved cfg (reg_code RegOp.divw).funct3 (funct7 w) w h7,
        op32_bit-reserved cfg (reg_code RegOp.divw).funct3 (funct7 w) w h7,
      )
      (unfold op32_mul in simp r_format_lem)
opcode_arms-reserved cfg RegOp.divuw w h1 h3 h7 =
    rw
      (
        h3,
        op32_arms-reserved cfg (reg_code RegOp.divuw).funct3 (funct7 w) w h7,
        op32_bit-reserved cfg (reg_code RegOp.divuw).funct3 (funct7 w) w h7,
      )
      (unfold op32_mul in simp r_format_lem)
opcode_arms-reserved cfg RegOp.remw w h1 h3 h7 =
    rw
      (
        h3,
        op32_arms-reserved cfg (reg_code RegOp.remw).funct3 (funct7 w) w h7,
        op32_bit-reserved cfg (reg_code RegOp.remw).funct3 (funct7 w) w h7,
      )
      (unfold op32_mul in simp r_format_lem)
opcode_arms-reserved cfg RegOp.remuw w h1 h3 h7 =
    rw
      (
        h3,
        op32_arms-reserved cfg (reg_code RegOp.remuw).funct3 (funct7 w) w h7,
        op32_bit-reserved cfg (reg_code RegOp.remuw).funct3 (funct7 w) w h7,
      )
      (unfold op32_mul in simp r_format_lem)
opcode_arms-reserved cfg _ w h1 h3 h7 = absurd (omega (arith, h1))

-- A word of the opcode `OP` or `OP-32` whose `funct7` the code has no arm of the base set and of B
-- for in that opcode, with any `funct3`, decodes to the M instruction of its opcode and `funct3`, also
-- where `funct7` is not the 1 of M. The 32-bit layout of ZEXT.H is such a word.
pub parse_word-reserved :
    (cfg : Config) (op : RegOp) (f7 d a b : ℕ)
    → (reg_code op).funct7 ≡ 1
    → is_named (reg_code op).opcode f7 ≡ false
    → f7 < 128
    → d < 32
    → a < 32
    → b < 32
    → parse_word cfg (r_word (code (reg_code op).opcode f7 (reg_code op).funct3) d a b)
      ≡ ok (reg_instr cfg op (x_rd d) (x_rs1 a) (x_rs2 b))
parse_word-reserved cfg op f7 d a b h1 h7 low7 hd ha hb =
    let low = reg_code_low op in
    let w = r_word (code (reg_code op).opcode f7 (reg_code op).funct3) d a b in
    let field3 : funct3 w ≡ (reg_code op).funct3 = omega (arith, funct3_lem w) in
    let field7 : funct7 w ≡ f7 = omega (arith, funct7_lem w) in
    let at7 : bits_at w 7 5 ≡ d = omega arith in
    let at15 : bits_at w 15 5 ≡ a = omega arith in
    let at20 : bits_at w 20 5 ≡ b = omega arith in
    rw (
      parse_word-eq-arms cfg w (reg_code op).opcode (omega arith) low.0,
      opcode_arms-reserved cfg op w h1 field3 (rw field7 h7),
      at7,
      at15,
      at20,
    )
