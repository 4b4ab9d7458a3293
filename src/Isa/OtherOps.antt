-- ===== src/Isa/OtherOps.antt =====
-- Further instructions of the manuals: bit counts and extensions of one register, instructions without
-- operands, fences of address translation, FENCE with its sets, and load reserved.
use double_jit_vm.Prelude.{Bool, if◌then◌else◌, ℕ, ◌+◌, ◌*◌, ◌^◌, ◌<◌, ◌≡◌, ◌≢◌}
use double_jit_vm.Instr.{Instr}
use double_jit_vm.Instr.Operand.{Xx, Reg, Rd, Rs, Rs1, Rs2, Aq, Rl, FenceFm, FencePred, FenceSucc}
use double_jit_vm.Instr.Base32.{Rv32I}
use double_jit_vm.Instr.MulAtomic.{Rv32A, Rv64A}
use double_jit_vm.Instr.System.{Rvb, RvPreviledge}
use double_jit_vm.Decode.Config.{
  Config, rv32, rv32_no_e_rv32a, rv64_no_e_rv64a, rv64_no_e_rvb, rv64_no_e_rvpreviledge,
}
use double_jit_vm.Isa.Words.{Code, code, r_word}

-- One source; the field of `rs2` is part of the code. REV8 is the one of 64 bits: on 32 bits its layout
-- is another.
pub data UnaryOp : Type 0 where
  clz ctz cpop sextb sexth rev8 clzw ctzw cpopw : UnaryOp

abbrev pub unary_code : UnaryOp → Code
unary_code UnaryOp.clz = code 0b0010011 0b0110000 0b001
unary_code UnaryOp.ctz = code 0b0010011 0b0110000 0b001
unary_code UnaryOp.cpop = code 0b0010011 0b0110000 0b001
unary_code UnaryOp.sextb = code 0b0010011 0b0110000 0b001
unary_code UnaryOp.sexth = code 0b0010011 0b0110000 0b001
unary_code UnaryOp.rev8 = code 0b0010011 0b0110101 0b101
unary_code UnaryOp.clzw = code 0b0011011 0b0110000 0b001
unary_code UnaryOp.ctzw = code 0b0011011 0b0110000 0b001
unary_code UnaryOp.cpopw = code 0b0011011 0b0110000 0b001

abbrev pub unary_sub : UnaryOp → ℕ
unary_sub UnaryOp.clz = 0b00000
unary_sub UnaryOp.ctz = 0b00001
unary_sub UnaryOp.cpop = 0b00010
unary_sub UnaryOp.sextb = 0b00100
unary_sub UnaryOp.sexth = 0b00101
unary_sub UnaryOp.rev8 = 0b11000
unary_sub UnaryOp.clzw = 0b00000
unary_sub UnaryOp.ctzw = 0b00001
unary_sub UnaryOp.cpopw = 0b00010

abbrev pub unary_instr : UnaryOp → Rd → Rs → Instr
unary_instr UnaryOp.clz d a = rv64_no_e_rvb (Rvb.clz d a)
unary_instr UnaryOp.ctz d a = rv64_no_e_rvb (Rvb.ctz d a)
unary_instr UnaryOp.cpop d a = rv64_no_e_rvb (Rvb.cpop d a)
unary_instr UnaryOp.sextb d a = rv64_no_e_rvb (Rvb.sextb d a)
unary_instr UnaryOp.sexth d a = rv64_no_e_rvb (Rvb.sexth d a)
unary_instr UnaryOp.rev8 d a = rv64_no_e_rvb (Rvb.rev8 d a)
unary_instr UnaryOp.clzw d a = rv64_no_e_rvb (Rvb.clzw d a)
unary_instr UnaryOp.ctzw d a = rv64_no_e_rvb (Rvb.ctzw d a)
unary_instr UnaryOp.cpopw d a = rv64_no_e_rvb (Rvb.cpopw d a)

-- No operands: the whole word.
pub data FixedOp : Type 0 where
  ecall ebreak sret wfi mret sfence_w_inval sfence_inval_ir fence_tso pause : FixedOp

abbrev pub fixed_word : FixedOp → ℕ
fixed_word FixedOp.ecall = 0x00000073
fixed_word FixedOp.ebreak = 0x00100073
fixed_word FixedOp.sret = 0x10200073
fixed_word FixedOp.wfi = 0x10500073
fixed_word FixedOp.mret = 0x30200073
fixed_word FixedOp.sfence_w_inval = 0x18000073
fixed_word FixedOp.sfence_inval_ir = 0x18100073
fixed_word FixedOp.fence_tso = 0x8330000f
fixed_word FixedOp.pause = 0x0100000f

abbrev pub fixed_instr : Config → FixedOp → Instr
fixed_instr cfg FixedOp.ecall = rv32 cfg Rv32I.ecall
fixed_instr cfg FixedOp.ebreak = rv32 cfg Rv32I.ebreak
fixed_instr cfg FixedOp.sret = rv64_no_e_rvpreviledge RvPreviledge.sret
fixed_instr cfg FixedOp.wfi = rv64_no_e_rvpreviledge RvPreviledge.wfi
fixed_instr cfg FixedOp.mret = rv64_no_e_rvpreviledge RvPreviledge.mret
fixed_instr cfg FixedOp.sfence_w_inval = rv64_no_e_rvpreviledge RvPreviledge.sfence_w_inval
fixed_instr cfg FixedOp.sfence_inval_ir = rv64_no_e_rvpreviledge RvPreviledge.sfence_inval_ir
fixed_instr cfg FixedOp.fence_tso = rv32 cfg Rv32I.fence_tso
fixed_instr cfg FixedOp.pause = rv32 cfg Rv32I.pause

-- Two sources, no destination.
pub data VmaOp : Type 0 where
  sfence_vma sinval_vma : VmaOp

abbrev pub vma_code : VmaOp → Code
vma_code VmaOp.sfence_vma = code 0b1110011 0b0001001 0b000
vma_code VmaOp.sinval_vma = code 0b1110011 0b0001011 0b000

abbrev pub vma_instr : VmaOp → Rs1 → Rs2 → Instr
vma_instr VmaOp.sfence_vma a b = rv64_no_e_rvpreviledge (RvPreviledge.sfence_vma a b)
vma_instr VmaOp.sinval_vma a b = rv64_no_e_rvpreviledge (RvPreviledge.sinval_vma a b)

-- Load reserved.
pub data LrOp : Type 0 where
  lr_w lr_d : LrOp

abbrev pub lr_width : LrOp → ℕ
lr_width LrOp.lr_w = 0b010
lr_width LrOp.lr_d = 0b011

abbrev pub lr_instr : LrOp → Rd → Rs1 → Aq → Rl → Instr
lr_instr LrOp.lr_w d a acquire release = rv32_no_e_rv32a (Rv32A.lr_w d a acquire release)
lr_instr LrOp.lr_d d a acquire release = rv64_no_e_rv64a (Rv64A.lr_d d a acquire release)

-- The number of a flag.
abbrev pub bit_of : Bool → ℕ
bit_of flag = if flag then 1 else 0

-- opcode 7, rd 5, width 3, rs1 5, zeros 5, rl, aq, 00010
abbrev pub lr_word : LrOp → (acquire release : Bool) → (d a : ℕ) → ℕ
lr_word op acquire release d a =
    0b0101111
    + d * 2 ^ 7
    + lr_width op * 2 ^ 12
    + a * 2 ^ 15
    + bit_of release * 2 ^ 25
    + bit_of acquire * 2 ^ 26
    + 0b00010 * 2 ^ 27

-- The widths, 0 for 32 bits and 1 for 64 bits, that the layout of an instruction belongs to.
abbrev pub HasUnary : ℕ → UnaryOp → Type 0
HasUnary width UnaryOp.rev8 = width ≡ 1
HasUnary width UnaryOp.clzw = width ≡ 1
HasUnary width UnaryOp.ctzw = width ≡ 1
HasUnary width UnaryOp.cpopw = width ≡ 1
HasUnary width _ = Unit {0}

-- ZEXT.H on 64 bits, with the field of `rs2` behind the code.
abbrev pub zexth_word : (d a : ℕ) → ℕ
zexth_word d a = r_word (code 0b0111011 0b0000100 0b100) d a 0b00000

pub data OtherInstr : Type 0 where
  lr : LrOp → (acquire release : Bool) → (d a : ℕ) → OtherInstr
  unary : UnaryOp → (d a : ℕ) → OtherInstr
  fixed : FixedOp → OtherInstr
  vma : VmaOp → (a b : ℕ) → OtherInstr
  fence : (fm pred succ_ d a : ℕ) → OtherInstr
  zexth : (d a : ℕ) → OtherInstr

-- opcode 7, rd 5, 000, rs1 5, successors 4, predecessors 4, mode 4 bits
abbrev pub fence_word : (fm pred succ_ d a : ℕ) → ℕ
fence_word fm pred succ_ d a =
    0b0001111 + d * 2 ^ 7 + a * 2 ^ 15 + succ_ * 2 ^ 20 + pred * 2 ^ 24 + fm * 2 ^ 28

abbrev pub other_word : OtherInstr → ℕ
other_word (OtherInstr.unary op d a) = r_word (unary_code op) d a (unary_sub op)
other_word (OtherInstr.lr op acquire release d a) = lr_word op acquire release d a
other_word (OtherInstr.fixed op) = fixed_word op
other_word (OtherInstr.vma op a b) = r_word (vma_code op) 0 a b
other_word (OtherInstr.fence fm pred succ_ d a) = fence_word fm pred succ_ d a
other_word (OtherInstr.zexth d a) = zexth_word d a

-- The operands in range; a fence that is no FENCE.TSO and no PAUSE; the layouts of REV8 and ZEXT.H
-- are those of 64 bits, which CLZW, CTZW and CPOPW belong to alone.
abbrev pub AreOperands : ℕ → OtherInstr → Type 0
AreOperands width (OtherInstr.unary op d a) = HasUnary width op × (d < 32) × (a < 32)
AreOperands width (OtherInstr.lr op acquire release d a) = (d < 32) × (a < 32)
AreOperands width (OtherInstr.fixed op) = Unit
AreOperands width (OtherInstr.vma op a b) = (a < 32) × (b < 32)
AreOperands width (OtherInstr.fence fm pred succ_ d a) =
    (fm < 16)
    × (pred < 16)
    × (succ_ < 16)
    × (d < 32)
    × (a < 32)
    × (fence_word fm pred succ_ d a ≢ fixed_word FixedOp.fence_tso)
    × (fence_word fm pred succ_ d a ≢ fixed_word FixedOp.pause)
AreOperands width (OtherInstr.zexth d a) = (width ≡ 1) × (d < 32) × (a < 32)

abbrev pub other_instr : Config → OtherInstr → Instr
other_instr cfg (OtherInstr.unary op d a) =
    unary_instr op (Rd.reg (Reg.x (Xx.xx d))) (Rs.reg (Reg.x (Xx.xx a)))
other_instr cfg (OtherInstr.lr op acquire release d a) =
    lr_instr op (Rd.reg (Reg.x (Xx.xx d))) (Rs1.reg (Reg.x (Xx.xx a))) (Aq.flag acquire)
      (Rl.flag release)
other_instr cfg (OtherInstr.fixed op) = fixed_instr cfg op
other_instr cfg (OtherInstr.vma op a b) =
    vma_instr op (Rs1.reg (Reg.x (Xx.xx a))) (Rs2.reg (Reg.x (Xx.xx b)))
other_instr cfg (OtherInstr.fence fm pred succ_ d a) = rv32 cfg (
    Rv32I.fence (Rd.reg (Reg.x (Xx.xx d))) (Rs1.reg (Reg.x (Xx.xx a)))
      (FenceSucc.bits (Xx.xx succ_)) (FencePred.bits (Xx.xx pred)) (FenceFm.bits (Xx.xx fm)))
other_instr cfg (OtherInstr.zexth d a) =
    rv64_no_e_rvb (Rvb.zexth (Rd.reg (Reg.x (Xx.xx d))) (Rs.reg (Reg.x (Xx.xx a))))
