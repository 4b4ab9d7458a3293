-- ===== src/RoundTrip/Compressed/Quadrant2.antt =====
-- Quadrant 2: the stack, moves and register jumps.
use double_jit_vm.Prelude.{ℕ, arith}
use double_jit_vm.Field.Laws.{rd_lem}
use double_jit_vm.Field.Compressed.Laws.{
  c_rs2_lem, c_uimmediate_lem, c_lwsp_uimmediate_lem, c_fldsp_uimmediate_lem, c_swsp_uimmediate_lem,
  jr_key_lem,
}
use double_jit_vm.Isa.Compressed.{CInstr}
use double_jit_vm.Compressed.{compressed_arms}
use double_jit_vm.Compressed.Quadrants.{c_slli_arm, c_lwsp_arm, c_ldsp_arm, c_jr_mv_add_arm}
use double_jit_vm.Decode.Config.{Config}
use double_jit_vm.RoundTrip.Compressed.Key.{by_key, word, Reads, Decodes}

pub Reads-slli : (d i : ℕ) → (cfg : Config) → Reads cfg (CInstr.slli d i)
unfolding compressed_arms c_slli_arm
Reads-slli d i cfg rest h =
    let w = word (CInstr.slli d i) rest in
    rw (by_key cfg w 2 (omega arith)) (ground (arith, rd_lem w, c_uimmediate_lem w))

pub Decodes-lwsp : (d i : ℕ) → (cfg : Config) → Decodes cfg (CInstr.lwsp d i)
unfolding compressed_arms c_lwsp_arm
Decodes-lwsp d i cfg there rest h =
    let w = word (CInstr.lwsp d i) rest in
    rw (by_key cfg w 0x4002 (omega arith)) (ground (arith, rd_lem w, c_lwsp_uimmediate_lem w))

pub Decodes-ldsp : (d i : ℕ) → (cfg : Config) → Decodes cfg (CInstr.ldsp d i)
unfolding compressed_arms c_ldsp_arm
Decodes-ldsp d i cfg there rest h =
    let w = word (CInstr.ldsp d i) rest in
    rw (by_key cfg w 0x6002 (omega arith)) (ground (arith, rd_lem w, c_fldsp_uimmediate_lem w))

pub Decodes-swsp : (b i : ℕ) → (cfg : Config) → Decodes cfg (CInstr.swsp b i)
unfolding compressed_arms
Decodes-swsp b i cfg there rest h =
    let w = word (CInstr.swsp b i) rest in
    rw (by_key cfg w 0xC002 (omega arith)) (ground (arith, c_rs2_lem w, c_swsp_uimmediate_lem w))

pub Decodes-jr : (a : ℕ) → (cfg : Config) → Decodes cfg (CInstr.jr a)
unfolding compressed_arms c_jr_mv_add_arm
Decodes-jr a cfg there rest h =
    let w = word (CInstr.jr a) rest in
    rw (by_key cfg w 0x8002 (omega arith)) (ground (arith, rd_lem w, c_rs2_lem w, jr_key_lem w))

pub Decodes-mv : (d b : ℕ) → (cfg : Config) → Decodes cfg (CInstr.mv d b)
unfolding compressed_arms c_jr_mv_add_arm
Decodes-mv d b cfg there rest h =
    let w = word (CInstr.mv d b) rest in
    rw (by_key cfg w 0x8002 (omega arith)) (ground (arith, rd_lem w, c_rs2_lem w, jr_key_lem w))

pub Decodes-jalr : (a : ℕ) → (cfg : Config) → Decodes cfg (CInstr.jalr a)
unfolding compressed_arms c_jr_mv_add_arm
Decodes-jalr a cfg there rest h =
    let w = word (CInstr.jalr a) rest in
    rw (by_key cfg w 0x8002 (omega arith)) (ground (arith, rd_lem w, c_rs2_lem w, jr_key_lem w))

pub Decodes-add : (d b : ℕ) → (cfg : Config) → Decodes cfg (CInstr.add d b)
unfolding compressed_arms c_jr_mv_add_arm
Decodes-add d b cfg there rest h =
    let w = word (CInstr.add d b) rest in
    rw (by_key cfg w 0x8002 (omega arith)) (ground (arith, rd_lem w, c_rs2_lem w, jr_key_lem w))

pub Decodes-ebreak : (cfg : Config) → Decodes cfg CInstr.ebreak
unfolding compressed_arms c_jr_mv_add_arm
Decodes-ebreak cfg there rest h =
    let w = word CInstr.ebreak rest in
    rw (by_key cfg w 0x8002 (omega arith)) (ground (arith, rd_lem w, c_rs2_lem w, jr_key_lem w))
