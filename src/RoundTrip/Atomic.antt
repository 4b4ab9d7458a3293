-- ===== src/RoundTrip/Atomic.antt =====
-- Atomic memory operations.
use double_jit_vm.Prelude.{ℕ, ◌+◌, ◌*◌, ◌%◌, ◌^◌, ◌<◌, ◌≡◌, some, Bool, arith}
use double_jit_vm.Prelude.Outcome.{ok}
use double_jit_vm.Word.{bits_at}
use double_jit_vm.Instr.Operand.{Reg, Rd, Rs1, Rs2, Aq, Rl}
use double_jit_vm.Field.{funct3, funct5, aq, rl}
use double_jit_vm.Field.Laws.{slice_lem, funct3_lem, funct5_lem}
use double_jit_vm.Isa.SystemOps.{AmoOp, amo_code, amo_instr}
use double_jit_vm.Isa.OtherOps.{bit_of}
use double_jit_vm.Compressed.Quadrants.{x_rd, x_rs1, x_rs2}
use double_jit_vm.Decode.Config.{Config}
use double_jit_vm.Decode.Format.Laws.{reg_at, ra_format_lem}
use double_jit_vm.Decode.System.{amo_arms}
use double_jit_vm.Decode.Parse.{opcode_arms, parse_word}
use double_jit_vm.Decode.Full.{parse_word-eq-arms}

pub aq_lem : (w : ℕ) (flag : Bool) → bits_at w 26 1 ≡ bit_of flag → aq w ≡ flag
unfolding aq
aq_lem w flag h = ground (arith, slice_lem w 26 1 0)

pub rl_lem : (w : ℕ) (flag : Bool) → bits_at w 25 1 ≡ bit_of flag → rl w ≡ flag
unfolding rl
rl_lem w flag h = ground (arith, slice_lem w 25 1 0)

opcode_arms-amo :
    (cfg : Config) (op : AmoOp) (w : ℕ)
    → funct3 w ≡ (amo_code op).funct3
    → funct5 w ≡ (amo_code op).funct7
    → opcode_arms cfg w (amo_code op).opcode
      ≡ ok (
          some (
            amo_instr cfg op
              (Rd.reg (reg_at Reg.x w 7))
              (Rs1.reg (reg_at Reg.x w 15))
              (Rs2.reg (reg_at Reg.x w 20))
              (Aq.flag (aq w))
              (Rl.flag (rl w))))
unfolding opcode_arms
opcode_arms-amo cfg AmoOp.sc_w w h3 h5 = rw (h3, h5) (unfold amo_arms in simp ra_format_lem)
opcode_arms-amo cfg _ w h3 h5 = rw (h3, h5) (unfold amo_arms in simp ra_format_lem)

amo_code_low :
    (op : AmoOp)
    → ((amo_code op).opcode % 4 ≡ 3)
      × ((amo_code op).opcode < 128)
      × ((amo_code op).funct3 < 8)
      × ((amo_code op).funct7 < 32)
amo_code_low AmoOp.sc_w = omega arith
amo_code_low _ = omega arith

-- The word of an atomic memory operation.
abbrev pub amo_word : AmoOp → Bool → Bool → ℕ → ℕ → ℕ → ℕ
amo_word op acquire release d a b =
    (amo_code op).opcode
    + d * 2 ^ 7
    + (amo_code op).funct3 * 2 ^ 12
    + a * 2 ^ 15
    + b * 2 ^ 20
    + bit_of release * 2 ^ 25
    + bit_of acquire * 2 ^ 26
    + (amo_code op).funct7 * 2 ^ 27

pub bit_of-lt : (flag : Bool) → bit_of flag < 2
bit_of-lt flag = ground arith

-- The word of an atomic operation, on 32 or 64 bits, decodes to that operation over its three
-- registers, with its acquire and release flags.
pub parse_word-amo_word :
    (cfg : Config) (op : AmoOp) (acquire release : Bool) (d a b : ℕ)
    → d < 32
    → a < 32
    → b < 32
    → parse_word cfg (amo_word op acquire release d a b)
      ≡ ok (amo_instr cfg op (x_rd d) (x_rs1 a) (x_rs2 b) (Aq.flag acquire) (Rl.flag release))
parse_word-amo_word cfg op acquire release d a b hd ha hb =
    let low = amo_code_low op in
    let ba = bit_of-lt acquire in
    let br = bit_of-lt release in
    let w = amo_word op acquire release d a b in
    let field3 : funct3 w ≡ (amo_code op).funct3 = omega (arith, funct3_lem w) in
    let field5 : funct5 w ≡ (amo_code op).funct7 = omega (arith, funct5_lem w) in
    let at7 : bits_at w 7 5 ≡ d = omega arith in
    let at15 : bits_at w 15 5 ≡ a = omega arith in
    let at20 : bits_at w 20 5 ≡ b = omega arith in
    rw (
      parse_word-eq-arms cfg w (amo_code op).opcode (omega arith) low.0,
      opcode_arms-amo cfg op w field3 field5,
      at7,
      at15,
      at20,
      aq_lem w acquire (omega arith),
      rl_lem w release (omega arith),
    )
