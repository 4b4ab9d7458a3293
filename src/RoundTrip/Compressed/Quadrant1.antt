-- ===== src/RoundTrip/Compressed/Quadrant1.antt =====
-- Quadrant 1: immediates and jumps.
use double_jit_vm.Prelude.{ℕ, ◌+◌, ◌*◌, ◌/◌, ◌%◌, ◌^◌, ◌<◌, ◌≡◌, arith, ◌==◌, false}
use double_jit_vm.Word.{bits_at, sign_extend, shl32}
use double_jit_vm.Field.{rd}
use double_jit_vm.Field.Laws.{rd_lem}
use double_jit_vm.Field.Compressed.Laws.{
  c_r_lem, c_immediate_lem, c_j_immediate_lem, c_b_immediate_lem, addi16sp_immediate_lem,
}
use double_jit_vm.Isa.Compressed.{CInstr}
use double_jit_vm.Isa.Halves.{cj_word}
use double_jit_vm.Compressed.{compressed_arms}
use double_jit_vm.Compressed.Quadrants.{c_addi_arm, c_jal_addiw_arm, c_li_arm, c_addi16sp_lui_arm}
use double_jit_vm.Field.Compressed.{c_j_immediate}
use double_jit_vm.Decode.Config.{Config}
use double_jit_vm.RoundTrip.Compressed.Key.{by_key, word, Decodes}

-- A non-zero field of six bits, sign-extended and shifted up by 12, stays non-zero.
upper_ne_zero : (v : ℕ) → 0 < v → v < 2 ^ 6 → (shl32 (sign_extend 6 v) 12 == 0) ≡ false
upper_ne_zero v lo hi = ground arith

j_offset :
    (i : ℕ)
    → i < 2 ^ 12
    → i % 2 ≡ 0
    → i / 2 % 8 * 2 ^ 1
        + i / 2 ^ 4 % 2 * 2 ^ 4
        + i / 2 ^ 5 % 2 * 2 ^ 5
        + i / 2 ^ 6 % 2 * 2 ^ 6
        + i / 2 ^ 7 % 2 * 2 ^ 7
        + i / 2 ^ 8 % 4 * 2 ^ 8
        + i / 2 ^ 10 % 2 * 2 ^ 10
        + i / 2 ^ 11 % 2 * 2 ^ 11
      ≡ i
j_offset i h even = omega arith

pub Decodes-addi : (d i : ℕ) → (cfg : Config) → Decodes cfg (CInstr.addi d i)
unfolding compressed_arms c_addi_arm
Decodes-addi d i cfg there rest h =
    let w = word (CInstr.addi d i) rest in
    rw (by_key cfg w 1 (omega arith)) (ground (arith, rd_lem w, c_immediate_lem w))

pub Decodes-addiw : (d i : ℕ) → (cfg : Config) → Decodes cfg (CInstr.addiw d i)
unfolding compressed_arms c_jal_addiw_arm
Decodes-addiw d i cfg there rest h =
    let w = word (CInstr.addiw d i) rest in
    rw (by_key cfg w 0x2001 (omega arith)) (ground (arith, rd_lem w, c_immediate_lem w))

pub Decodes-li : (d i : ℕ) → (cfg : Config) → Decodes cfg (CInstr.li d i)
unfolding compressed_arms c_li_arm
Decodes-li d i cfg there rest h =
    let w = word (CInstr.li d i) rest in
    rw (by_key cfg w 0x4001 (omega arith)) (ground (arith, rd_lem w, c_immediate_lem w))

pub Decodes-lui : (d i : ℕ) → (cfg : Config) → Decodes cfg (CInstr.lui d i)
unfolding compressed_arms c_addi16sp_lui_arm
Decodes-lui d i cfg there rest h =
    let w = word (CInstr.lui d i) rest in
    rw (by_key cfg w 0x6001 (omega arith)) (ground (arith, rd_lem w, c_immediate_lem w))

pub Decodes-addi16sp : (i : ℕ) → (cfg : Config) → Decodes cfg (CInstr.addi16sp i)
unfolding compressed_arms c_addi16sp_lui_arm
Decodes-addi16sp i cfg there rest h =
    let w = word (CInstr.addi16sp i) rest in
    let stack : rd w ≡ 2 = omega (arith, rd_lem w) in
    let low : 0 < bits_at w 2 5 + bits_at w 12 1 * 2 ^ 5 = omega arith in
    let high : bits_at w 2 5 + bits_at w 12 1 * 2 ^ 5 < 2 ^ 6 = omega arith in
    let joined : bits_at w 6 1 * 2 ^ 4
          + bits_at w 2 1 * 2 ^ 5
          + bits_at w 5 1 * 2 ^ 6
          + bits_at w 3 2 * 2 ^ 7
          + bits_at w 12 1 * 2 ^ 9
        ≡ i =
      omega arith in
    rw
      (
        by_key cfg w 0x6001 (omega arith),
        stack,
        addi16sp_immediate_lem w,
        joined,
        c_immediate_lem w,
      )
      (rw (upper_ne_zero (bits_at w 2 5 + bits_at w 12 1 * 2 ^ 5) low high))

-- The offset of `C.J` and `C.JAL` from the word of either.
cj_offset :
    (funct3 rest i : ℕ)
    → i < 2 ^ 12
    → i % 2 ≡ 0
    → c_j_immediate (cj_word funct3 i + rest * 2 ^ 16) ≡ sign_extend 12 i
cj_offset funct3 rest i h even =
    let w = cj_word funct3 i + rest * 2 ^ 16 in
    let b1 : bits_at w 3 3 ≡ i / 2 % 8 = omega arith in
    let b4 : bits_at w 11 1 ≡ i / 2 ^ 4 % 2 = omega arith in
    let b5 : bits_at w 2 1 ≡ i / 2 ^ 5 % 2 = omega arith in
    let b6 : bits_at w 7 1 ≡ i / 2 ^ 6 % 2 = omega arith in
    let b7 : bits_at w 6 1 ≡ i / 2 ^ 7 % 2 = omega arith in
    let b8 : bits_at w 9 2 ≡ i / 2 ^ 8 % 4 = omega arith in
    let b10 : bits_at w 8 1 ≡ i / 2 ^ 10 % 2 = omega arith in
    let b11 : bits_at w 12 1 ≡ i / 2 ^ 11 % 2 = omega arith in
    rw (c_j_immediate_lem w, b1, b4, b5, b6, b7, b8, b10, b11) (rw (j_offset i h even))

pub Decodes-j : (i : ℕ) → (cfg : Config) → Decodes cfg (CInstr.j i)
unfolding compressed_arms
Decodes-j i cfg there rest h =
    let w = word (CInstr.j i) rest in
    rw (by_key cfg w 0xA001 (omega arith), cj_offset 5 rest i h.0 h.1)

pub Decodes-jal : (i : ℕ) → (cfg : Config) → Decodes cfg (CInstr.jal i)
unfolding compressed_arms c_jal_addiw_arm
Decodes-jal i cfg there rest h =
    let w = word (CInstr.jal i) rest in
    rw (by_key cfg w 0x2001 (omega arith), there, cj_offset 1 rest i h.0 h.1)

pub Decodes-beqz : (a i : ℕ) → (cfg : Config) → Decodes cfg (CInstr.beqz a i)
unfolding compressed_arms
Decodes-beqz a i cfg there rest h =
    let w = word (CInstr.beqz a i) rest in
    rw (by_key cfg w 0xC001 (omega arith)) (ground (arith, c_r_lem w 7, c_b_immediate_lem w))
