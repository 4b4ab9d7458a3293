-- ===== src/RoundTrip/Other/Extension.antt =====
-- ZEXT.H on 64 bits.
use double_jit_vm.Prelude.{ℕ, ◌<◌, ◌≡◌, refl, arith}
use double_jit_vm.Prelude.Outcome.{ok, found}
use double_jit_vm.Word.{bits_at}
use double_jit_vm.Instr.Operand.{Reg, Rd, Rs}
use double_jit_vm.Instr.System.{Rvb}
use double_jit_vm.Field.{funct7, funct3, rs2}
use double_jit_vm.Field.Laws.{funct7_lem, funct3_lem, rs2_lem}
use double_jit_vm.Isa.OtherOps.{OtherInstr, zexth_word, other_instr}
use double_jit_vm.Decode.Config.{Config, rv64_no_e_rvb}
use double_jit_vm.Decode.Format.Laws.{reg_at, rd_rs_format_lem}
use double_jit_vm.Decode.Op.{op32_arms, op32_bit}
use double_jit_vm.Decode.Parse.{opcode_arms, parse_op32, parse_word}
use double_jit_vm.Decode.Full.{parse_word-eq-arms}

opcode_arms-zexth :
    (cfg : Config) (w : ℕ)
    → cfg.bit_length ≡ 1
    → funct3 w ≡ 0b100
    → funct7 w ≡ 0b0000100
    → rs2 w ≡ 0
    → opcode_arms cfg w 0b0111011
      ≡ found
          (ok (rv64_no_e_rvb (Rvb.zexth (Rd.reg (reg_at Reg.x w 7)) (Rs.reg (reg_at Reg.x w 15)))))
unfolding opcode_arms parse_op32
opcode_arms-zexth cfg w wide h3 h7 h2 =
    rw (h3, h7) (unfold op32_arms op32_bit in simp (wide, h2, rd_rs_format_lem))

pub parse_word-zexth :
    (cfg : Config) (d a : ℕ)
    → cfg.bit_length ≡ 1
    → d < 32
    → a < 32
    → parse_word cfg (zexth_word d a) ≡ ok (other_instr cfg (OtherInstr.zexth d a))
parse_word-zexth cfg d a wide hd ha =
    let w = zexth_word d a in
    let at7 : bits_at w 7 5 ≡ d = omega arith in
    let at15 : bits_at w 15 5 ≡ a = omega arith in
    rw (
      parse_word-eq-arms cfg w 0b0111011 (omega arith) refl,
      opcode_arms-zexth cfg w wide (omega (arith, funct3_lem w)) (omega (arith, funct7_lem w))
          (omega (arith, rs2_lem w)),
      at7,
      at15,
    )
