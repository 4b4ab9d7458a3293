-- ===== src/Deviations/Upper.antt =====
-- `LUI` and `AUIPC`: the macro `u!` reads `itype_immediate`.
use double_jit_vm.Prelude.{ℕ, ◌/◌, ◌^◌, ◌<◌, ◌≡◌, some, ◌%◌, arith}
use double_jit_vm.Prelude.Outcome.{ok}
use double_jit_vm.Word.{bits_at, sign_extend}
use double_jit_vm.Instr.{Instr}
use double_jit_vm.Instr.Operand.{Reg, Rd, Imm32}
use double_jit_vm.Instr.Base32.{Rv32I}
use double_jit_vm.Field.{itype_immediate}
use double_jit_vm.Field.Laws.{itype_immediate_lem}
use double_jit_vm.Isa.Words.{u_word}
use double_jit_vm.Compressed.Quadrants.{x_rd}
use double_jit_vm.Decode.Config.{Config, rv32}
use double_jit_vm.Decode.Format.Laws.{reg_at, u_format_lem}
use double_jit_vm.Decode.Parse.{opcode_arms, parse_word}
use double_jit_vm.Decode.Full.{parse_word-eq-arms}

pub data UpperOp : Type 0 where
  lui auipc : UpperOp

abbrev pub upper_opcode : UpperOp → ℕ
upper_opcode UpperOp.lui = 0b0110111
upper_opcode UpperOp.auipc = 0b0010111

abbrev pub upper_instr : Config → UpperOp → Rd → Imm32 31 12 → Instr
upper_instr cfg UpperOp.lui d value = rv32 cfg (Rv32I.lui d value)
upper_instr cfg UpperOp.auipc d value = rv32 cfg (Rv32I.auipc d value)

opcode_arms-upper :
    (cfg : Config) (op : UpperOp) (w : ℕ)
    → opcode_arms cfg w (upper_opcode op)
      ≡ ok (some (upper_instr cfg op (Rd.reg (reg_at Reg.x w 7)) (Imm32.imm (itype_immediate w))))
unfolding opcode_arms
opcode_arms-upper cfg UpperOp.lui w = simp u_format_lem
opcode_arms-upper cfg UpperOp.auipc w = simp u_format_lem

upper_opcode_low : (op : UpperOp) → (upper_opcode op % 4 ≡ 3) × (upper_opcode op < 128)
upper_opcode_low UpperOp.lui = omega arith
upper_opcode_low UpperOp.auipc = omega arith

-- The word of `LUI` or `AUIPC` with the 20-bit immediate `upper` decodes to that instruction, but
-- with only the top 12 bits of `upper`, sign-extended, as its immediate: the low 8 bits of `upper`
-- are lost and the rest is not moved to bit 12.
pub parse_word-u_word :
    (cfg : Config) (op : UpperOp) (d upper : ℕ)
    → d < 32
    → upper < 2 ^ 20
    → parse_word cfg (u_word (upper_opcode op) d upper)
      ≡ ok (upper_instr cfg op (x_rd d) (Imm32.imm (sign_extend 12 (upper / 2 ^ 8))))
parse_word-u_word cfg op d upper hd hi =
    let low = upper_opcode_low op in
    let w = u_word (upper_opcode op) d upper in
    let at7 : bits_at w 7 5 ≡ d = omega arith in
    let top : bits_at w 20 12 ≡ upper / 2 ^ 8 = omega arith in
    rw (
      parse_word-eq-arms cfg w (upper_opcode op) (omega arith) low.0,
      opcode_arms-upper cfg op w,
      at7,
      itype_immediate_lem w (omega arith),
      top,
    )
