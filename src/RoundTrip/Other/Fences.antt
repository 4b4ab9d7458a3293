-- ===== src/RoundTrip/Other/Fences.antt =====
-- The fences of address translation, and FENCE with its sets.
use double_jit_vm.Prelude.{ℕ, ◌<◌, ◌≡◌, ◌≢◌, refl, false, arith, ◌==◌}
use double_jit_vm.Prelude.Outcome.{ok, found}
use double_jit_vm.Word.{bits_at, sign_extend}
use double_jit_vm.Instr.Operand.{Xx, Reg, Rd, Rs1, Rs2, FenceFm, FencePred, FenceSucc}
use double_jit_vm.Field.{funct7, funct3, itype_immediate}
use double_jit_vm.Field.Laws.{funct7_lem, funct3_lem, itype_immediate_lem}
use double_jit_vm.Instr.Base32.{Rv32I}
use double_jit_vm.Isa.Words.{r_word}
use double_jit_vm.Isa.OtherOps.{
  FixedOp, fixed_word, VmaOp, vma_code, vma_instr, OtherInstr, fence_word, other_word, AreOperands,
  other_instr,
}
use double_jit_vm.Decode.Config.{Config, rv32}
use double_jit_vm.Decode.Format.Laws.{reg_at, rs1_rs2_format_lem, fence_format_lem}
use double_jit_vm.Decode.System.{system_arms}
use double_jit_vm.Decode.Parse.{opcode_arms, fence_arms, parse_word}
use double_jit_vm.Decode.Full.{parse_word-eq-arms}

opcode_arms-vma :
    (cfg : Config) (op : VmaOp) (w : ℕ)
    → funct3 w ≡ (vma_code op).funct3
    → funct7 w ≡ (vma_code op).funct7
    → (itype_immediate w == 0) ≡ false
    → (itype_immediate w == 1) ≡ false
    → opcode_arms cfg w (vma_code op).opcode
      ≡ found (ok (vma_instr op (Rs1.reg (reg_at Reg.x w 15)) (Rs2.reg (reg_at Reg.x w 20))))
unfolding opcode_arms
opcode_arms-vma cfg VmaOp.sfence_vma w h3 h7 hi hj =
    rw (h3, h7) (unfold system_arms in simp (hi, hj, rs1_rs2_format_lem))
opcode_arms-vma cfg _ w h3 h7 hi hj =
    rw (h3, h7) (unfold system_arms in simp (hi, hj, rs1_rs2_format_lem))

opcode_arms-fence :
    (cfg : Config) (w : ℕ)
    → funct3 w ≡ 0
    → w ≢ fixed_word FixedOp.fence_tso
    → w ≢ fixed_word FixedOp.pause
    → opcode_arms cfg w 0b0001111
      ≡ found (
          ok (
            rv32 cfg (
              Rv32I.fence
                (Rd.reg (reg_at Reg.x w 7))
                (Rs1.reg (reg_at Reg.x w 15))
                (FenceSucc.bits (Xx.xx (bits_at w 20 4)))
                (FencePred.bits (Xx.xx (bits_at w 24 4)))
                (FenceFm.bits (Xx.xx (bits_at w 28 4))))))
unfolding opcode_arms fence_arms
opcode_arms-fence cfg w h3 no_tso no_pause =
    let p : (w == fixed_word FixedOp.fence_tso) ≡ false = ground (arith, no_tso) in
    let q : (w == fixed_word FixedOp.pause) ≡ false = ground (arith, no_pause) in
    rw (h3, p, q) (simp fence_format_lem)

vma_code_low :
    (op : VmaOp)
    → ((vma_code op).opcode ≡ 0b1110011)
      × ((vma_code op).funct3 ≡ 0)
      × (0 < (vma_code op).funct7)
      × ((vma_code op).funct7 < 64)
vma_code_low VmaOp.sfence_vma = omega arith
vma_code_low _ = omega arith

pub parse_word-vma :
    (cfg : Config) (op : VmaOp) (a b : ℕ)
    → a < 32
    → b < 32
    → parse_word cfg (other_word (OtherInstr.vma op a b))
      ≡ ok (other_instr cfg (OtherInstr.vma op a b))
parse_word-vma cfg op a b ha hb =
    let low = vma_code_low op in
    let w = r_word (vma_code op) 0 a b in
    let field3 : funct3 w ≡ (vma_code op).funct3 = omega (arith, funct3_lem w) in
    let field7 : funct7 w ≡ (vma_code op).funct7 = omega (arith, funct7_lem w) in
    let imm : itype_immediate w ≡ sign_extend 12 (bits_at w 20 12) =
      itype_immediate_lem w (omega arith) in
    let not0 : (itype_immediate w == 0) ≡ false = ground (arith, imm) in
    let not1 : (itype_immediate w == 1) ≡ false = ground (arith, imm) in
    let at15 : bits_at w 15 5 ≡ a = omega arith in
    let at20 : bits_at w 20 5 ≡ b = omega arith in
    rw (
      parse_word-eq-arms cfg w (vma_code op).opcode (omega arith) (omega arith),
      opcode_arms-vma cfg op w field3 field7 not0 not1,
      at15,
      at20,
    )

pub parse_word-fence :
    (cfg : Config) (fm pred succ_ d a : ℕ)
    → AreOperands cfg.bit_length (OtherInstr.fence fm pred succ_ d a)
    → parse_word cfg (fence_word fm pred succ_ d a)
      ≡ ok (other_instr cfg (OtherInstr.fence fm pred succ_ d a))
parse_word-fence cfg fm pred succ_ d a (hf, hp, hs, hd, ha, no_tso, no_pause) =
    let w = fence_word fm pred succ_ d a in
    let field3 : funct3 w ≡ 0 = omega (arith, funct3_lem w) in
    let at7 : bits_at w 7 5 ≡ d = omega arith in
    let at15 : bits_at w 15 5 ≡ a = omega arith in
    let at20 : bits_at w 20 4 ≡ succ_ = omega arith in
    let at24 : bits_at w 24 4 ≡ pred = omega arith in
    let at28 : bits_at w 28 4 ≡ fm = omega arith in
    rw (
      parse_word-eq-arms cfg w 0b0001111 (omega arith) refl,
      opcode_arms-fence cfg w field3 no_tso no_pause,
      at7,
      at15,
      at20,
      at24,
      at28,
    )
