-- ===== src/RoundTrip/Compressed/Quadrant0.antt =====
-- Quadrant 0: loads and stores over x8 to x15.
use double_jit_vm.Prelude.{ℕ, arith}
use double_jit_vm.Field.Compressed.Laws.{
  c_r_lem, c_fld_uimmediate_lem, c_sw_uimmediate_lem, nzuimm_lem,
}
use double_jit_vm.Isa.Compressed.{CInstr}
use double_jit_vm.Compressed.{compressed_arms}
use double_jit_vm.Compressed.Quadrants.{c_ld_arm, c_sd_arm, c_addi4spn_arm}
use double_jit_vm.Decode.Config.{Config}
use double_jit_vm.RoundTrip.Compressed.Key.{by_key, word, Decodes}

pub Decodes-addi4spn : (d i : ℕ) → (cfg : Config) → Decodes cfg (CInstr.addi4spn d i)
unfolding compressed_arms c_addi4spn_arm
Decodes-addi4spn d i cfg there rest h =
    let w = word (CInstr.addi4spn d i) rest in
    rw (by_key cfg w 0 (omega arith)) (ground (arith, c_r_lem w 2, nzuimm_lem w))

pub Decodes-lw : (d a i : ℕ) → (cfg : Config) → Decodes cfg (CInstr.lw d a i)
unfolding compressed_arms
Decodes-lw d a i cfg there rest h =
    let w = word (CInstr.lw d a i) rest in
    rw (by_key cfg w 0x4000 (omega arith))
      (ground (arith, c_r_lem w 2, c_r_lem w 7, c_sw_uimmediate_lem w))

pub Decodes-ld : (d a i : ℕ) → (cfg : Config) → Decodes cfg (CInstr.ld d a i)
unfolding compressed_arms c_ld_arm
Decodes-ld d a i cfg there rest h =
    let w = word (CInstr.ld d a i) rest in
    rw (by_key cfg w 0x6000 (omega arith))
      (ground (arith, c_r_lem w 2, c_r_lem w 7, c_fld_uimmediate_lem w))

pub Decodes-sw : (a b i : ℕ) → (cfg : Config) → Decodes cfg (CInstr.sw a b i)
unfolding compressed_arms
Decodes-sw a b i cfg there rest h =
    let w = word (CInstr.sw a b i) rest in
    rw (by_key cfg w 0xC000 (omega arith))
      (ground (arith, c_r_lem w 2, c_r_lem w 7, c_sw_uimmediate_lem w))

pub Decodes-sd : (a b i : ℕ) → (cfg : Config) → Decodes cfg (CInstr.sd a b i)
unfolding compressed_arms c_sd_arm
Decodes-sd a b i cfg there rest h =
    let w = word (CInstr.sd a b i) rest in
    rw (by_key cfg w 0xE000 (omega arith))
      (ground (arith, c_r_lem w 2, c_r_lem w 7, c_fld_uimmediate_lem w))
