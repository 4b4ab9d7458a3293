-- ===== src/RoundTrip/Compressed/Hints.antt =====
-- C.NOP and the HINT encodings decode to the instruction without effect.
use double_jit_vm.Prelude.{arith}
use double_jit_vm.Field.Laws.{rd_lem}
use double_jit_vm.Field.Compressed.Laws.{
  c_rs2_lem, c_immediate_lem, c_uimmediate_lem, misc_alu_key_lem, shift_low_key_lem, jr_key_lem,
}
use double_jit_vm.Isa.Hints.{Hint}
use double_jit_vm.Isa.Compressed.{CInstr}
use double_jit_vm.Compressed.{compressed_arms}
use double_jit_vm.Compressed.Quadrants.{
  c_addi_arm, c_li_arm, c_addi16sp_lui_arm, c_slli_arm, c_misc_alu_arm, c_jr_mv_add_arm,
}
use double_jit_vm.Decode.Config.{Config}
use double_jit_vm.RoundTrip.Compressed.Key.{by_key, word, Decodes}

pub Decodes-hint : (h : Hint) → (cfg : Config) → Decodes cfg (CInstr.hint h)
unfolding compressed_arms c_addi_arm c_li_arm c_addi16sp_lui_arm c_slli_arm c_misc_alu_arm
    c_jr_mv_add_arm
Decodes-hint (Hint.nop i) cfg there rest h =
    let w = word (CInstr.hint (Hint.nop i)) rest in
    rw (by_key cfg w 1 (omega arith)) (ground (arith, rd_lem w, c_immediate_lem w))
Decodes-hint (Hint.addi_zero d) cfg there rest h =
    let w = word (CInstr.hint (Hint.addi_zero d)) rest in
    rw (by_key cfg w 1 (omega arith)) (ground (arith, rd_lem w, c_immediate_lem w))
Decodes-hint (Hint.li i) cfg there rest h =
    let w = word (CInstr.hint (Hint.li i)) rest in
    rw (by_key cfg w 0x4001 (omega arith)) (ground (arith, rd_lem w, c_immediate_lem w))
Decodes-hint (Hint.lui i) cfg there rest h =
    let w = word (CInstr.hint (Hint.lui i)) rest in
    rw (by_key cfg w 0x6001 (omega arith)) (ground (arith, rd_lem w, c_immediate_lem w))
Decodes-hint (Hint.slli i) cfg there rest h =
    let w = word (CInstr.hint (Hint.slli i)) rest in
    rw (by_key cfg w 2 (omega arith)) (ground (arith, rd_lem w, c_uimmediate_lem w))
Decodes-hint (Hint.slli_zero d) cfg there rest h =
    let w = word (CInstr.hint (Hint.slli_zero d)) rest in
    rw (by_key cfg w 2 (omega arith)) (ground (arith, rd_lem w, c_uimmediate_lem w))
Decodes-hint (Hint.srli_zero d) cfg there rest h =
    let w = word (CInstr.hint (Hint.srli_zero d)) rest in
    rw (by_key cfg w 0x8001 (omega arith)) (ground (arith, misc_alu_key_lem w, shift_low_key_lem w))
Decodes-hint (Hint.srai_zero d) cfg there rest h =
    let w = word (CInstr.hint (Hint.srai_zero d)) rest in
    rw (by_key cfg w 0x8001 (omega arith)) (ground (arith, misc_alu_key_lem w, shift_low_key_lem w))
Decodes-hint (Hint.mv b) cfg there rest h =
    let w = word (CInstr.hint (Hint.mv b)) rest in
    rw (by_key cfg w 0x8002 (omega arith)) (ground (arith, rd_lem w, c_rs2_lem w, jr_key_lem w))
Decodes-hint (Hint.add b) cfg there rest h =
    let w = word (CInstr.hint (Hint.add b)) rest in
    rw (by_key cfg w 0x8002 (omega arith)) (ground (arith, rd_lem w, c_rs2_lem w, jr_key_lem w))
