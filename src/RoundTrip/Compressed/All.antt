-- ===== src/RoundTrip/Compressed/All.antt =====
-- Every compressed instruction is read back: by the compressed decoder and by the whole one.
use double_jit_vm.Prelude.{ℕ, ◌+◌, ◌*◌, ◌^◌, ◌≡◌, refl, some}
use double_jit_vm.Prelude.Outcome.{ok}
use double_jit_vm.Isa.Compressed.{CInstr, IsAvailable, IsAllowed, expand, encode}
use double_jit_vm.Compressed.{try_from_compressed}
use double_jit_vm.Decode.Config.{Config}
use double_jit_vm.Decode.Parse.{parse_word}
use double_jit_vm.RoundTrip.Compressed.Key.{Decodes}
use double_jit_vm.RoundTrip.Compressed.Quadrant0.{
  Decodes-addi4spn, Decodes-lw, Decodes-ld, Decodes-sw, Decodes-sd,
}
use double_jit_vm.RoundTrip.Compressed.Quadrant1.{
  Decodes-addi, Decodes-addiw, Decodes-li, Decodes-lui, Decodes-addi16sp, Decodes-j, Decodes-jal,
  Decodes-beqz,
}
use double_jit_vm.RoundTrip.Compressed.Alu.{
  Decodes-sub, Decodes-xor, Decodes-or, Decodes-and, Decodes-subw, Decodes-addw, Reads-srli,
  Reads-srai, Decodes-andi,
}
use double_jit_vm.RoundTrip.Compressed.Hints.{Decodes-hint}
use double_jit_vm.RoundTrip.Compressed.Quadrant2.{
  Reads-slli, Decodes-lwsp, Decodes-ldsp, Decodes-swsp, Decodes-jr, Decodes-mv, Decodes-jalr,
  Decodes-add, Decodes-ebreak,
}

Decodes-all : (c : CInstr) → (cfg : Config) → Decodes cfg c
Decodes-all (CInstr.addi4spn d i) = Decodes-addi4spn d i
Decodes-all (CInstr.lw d a i) = Decodes-lw d a i
Decodes-all (CInstr.ld d a i) = Decodes-ld d a i
Decodes-all (CInstr.sw a b i) = Decodes-sw a b i
Decodes-all (CInstr.sd a b i) = Decodes-sd a b i
Decodes-all (CInstr.addi d i) = Decodes-addi d i
Decodes-all (CInstr.li d i) = Decodes-li d i
Decodes-all (CInstr.lui d i) = Decodes-lui d i
Decodes-all (CInstr.addiw d i) = Decodes-addiw d i
Decodes-all (CInstr.addi16sp i) = Decodes-addi16sp i
Decodes-all (CInstr.j i) = Decodes-j i
Decodes-all (CInstr.jal i) = Decodes-jal i
Decodes-all (CInstr.srli d i) = λ cfg there. Reads-srli d i cfg
Decodes-all (CInstr.srai d i) = λ cfg there. Reads-srai d i cfg
Decodes-all (CInstr.andi d i) = Decodes-andi d i
Decodes-all (CInstr.sub d b) = Decodes-sub d b
Decodes-all (CInstr.xor d b) = Decodes-xor d b
Decodes-all (CInstr.or d b) = Decodes-or d b
Decodes-all (CInstr.and d b) = Decodes-and d b
Decodes-all (CInstr.subw d b) = Decodes-subw d b
Decodes-all (CInstr.addw d b) = Decodes-addw d b
Decodes-all (CInstr.beqz a i) = Decodes-beqz a i
Decodes-all (CInstr.slli d i) = λ cfg there. Reads-slli d i cfg
Decodes-all (CInstr.lwsp d i) = Decodes-lwsp d i
Decodes-all (CInstr.ldsp d i) = Decodes-ldsp d i
Decodes-all (CInstr.swsp b i) = Decodes-swsp b i
Decodes-all (CInstr.mv d b) = Decodes-mv d b
Decodes-all (CInstr.add d b) = Decodes-add d b
Decodes-all (CInstr.jr a) = Decodes-jr a
Decodes-all (CInstr.jalr a) = Decodes-jalr a
Decodes-all CInstr.ebreak = Decodes-ebreak
Decodes-all (CInstr.hint h) = Decodes-hint h

-- For the instructions of RV32C and RV64C but C.BNEZ, C.SDSP and the float loads and stores, with the
-- operands that the manuals allow, on a width that has the instruction, and whatever half word `rest`
-- follows: from the half word the compressed decoder finds the instruction that it stands for; from
-- C.NOP and the HINT encodings, the instruction without effect. Of the shifts by an immediate this
-- holds for 64 bits alone.
pub try_from_compressed-encode :
    (cfg : Config)
    → (c : CInstr) → (rest : ℕ) → IsAvailable cfg.bit_length c
    → IsAllowed c
    → try_from_compressed cfg (encode c + rest * 2 ^ 16) ≡ ok (some (expand cfg c))
try_from_compressed-encode cfg c rest there h = Decodes-all c cfg there rest h

-- For the same instructions the whole decoder returns what the compressed decoder finds: the 32-bit
-- decoder is not asked.
pub parse_word-encode :
    (cfg : Config)
    → (c : CInstr) → (rest : ℕ) → IsAvailable cfg.bit_length c
    → IsAllowed c
    → parse_word cfg (encode c + rest * 2 ^ 16) ≡ ok (expand cfg c)
unfolding parse_word
parse_word-encode cfg c rest there h = rw (try_from_compressed-encode cfg c rest there h) refl
