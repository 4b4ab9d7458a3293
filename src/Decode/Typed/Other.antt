-- ===== src/Decode/Typed/Other.antt =====
-- The operands of the float, bit manipulation and system instructions of src/frontend/instruction.rs,
-- with the register file of each as in the RISC-V manuals.
use double_jit_vm.Instr.Float.{Rv32F, Rv32D, Rv64F, Rv64D}
use double_jit_vm.Instr.System.{Rvb, RvPreviledge, RvZcsr, RvZifencei}
use double_jit_vm.Decode.Typed.Operands.{
  File, RdIsIn, Rs1IsIn, Rs2IsIn, ImmFits, RegTyped, MoveTyped, UnaryTyped, PairTyped, ImmTyped,
  ShiftTyped, CsrTyped, CsrImmTyped, FmaTyped,
}

unfoldable pub IsRv32F : Rv32F → Type 0
unfolding RegTyped MoveTyped FmaTyped RdIsIn Rs1IsIn Rs2IsIn ImmFits
IsRv32F (Rv32F.flw d a i) = RdIsIn File.float d × Rs1IsIn File.integer a × ImmFits i
IsRv32F (Rv32F.fsw a b i) = Rs1IsIn File.integer a × Rs2IsIn File.float b × ImmFits i
IsRv32F (Rv32F.fmadd_s d a b c rm) = FmaTyped d a b c
IsRv32F (Rv32F.fmsub_s d a b c rm) = FmaTyped d a b c
IsRv32F (Rv32F.fnmsub_s d a b c rm) = FmaTyped d a b c
IsRv32F (Rv32F.fnmadd_s d a b c rm) = FmaTyped d a b c
IsRv32F (Rv32F.fadd_s d a b rm) = RegTyped File.float File.float d a b
IsRv32F (Rv32F.fsub_s d a b rm) = RegTyped File.float File.float d a b
IsRv32F (Rv32F.fmul_s d a b rm) = RegTyped File.float File.float d a b
IsRv32F (Rv32F.fdiv_s d a b rm) = RegTyped File.float File.float d a b
IsRv32F (Rv32F.fsqrt_s d a rm) = MoveTyped File.float File.float d a
IsRv32F (Rv32F.fsgnj_s d a b) = RegTyped File.float File.float d a b
IsRv32F (Rv32F.fsgnjn_s d a b) = RegTyped File.float File.float d a b
IsRv32F (Rv32F.fsgnjx_s d a b) = RegTyped File.float File.float d a b
IsRv32F (Rv32F.fmin_s d a b) = RegTyped File.float File.float d a b
IsRv32F (Rv32F.fmax_s d a b) = RegTyped File.float File.float d a b
IsRv32F (Rv32F.fcvt_w_s d a rm) = MoveTyped File.integer File.float d a
IsRv32F (Rv32F.fcvt_wu_s d a rm) = MoveTyped File.integer File.float d a
IsRv32F (Rv32F.fmv_x_w d a) = MoveTyped File.integer File.float d a
IsRv32F (Rv32F.feq_s d a b) = RegTyped File.integer File.float d a b
IsRv32F (Rv32F.flt_s d a b) = RegTyped File.integer File.float d a b
IsRv32F (Rv32F.fle_s d a b) = RegTyped File.integer File.float d a b
IsRv32F (Rv32F.fclass_s d a) = MoveTyped File.integer File.float d a
IsRv32F (Rv32F.fcvt_s_w d a rm) = MoveTyped File.float File.integer d a
IsRv32F (Rv32F.fcvt_s_wu d a rm) = MoveTyped File.float File.integer d a
IsRv32F (Rv32F.fmv_w_x d a) = MoveTyped File.float File.integer d a

unfoldable pub IsRv32D : Rv32D → Type 0
unfolding RegTyped MoveTyped FmaTyped RdIsIn Rs1IsIn Rs2IsIn ImmFits
IsRv32D (Rv32D.fld d a i) = RdIsIn File.float d × Rs1IsIn File.integer a × ImmFits i
IsRv32D (Rv32D.fsd a b i) = Rs1IsIn File.integer a × Rs2IsIn File.float b × ImmFits i
IsRv32D (Rv32D.fmadd_d d a b c rm) = FmaTyped d a b c
IsRv32D (Rv32D.fmsub_d d a b c rm) = FmaTyped d a b c
IsRv32D (Rv32D.fnmsub_d d a b c rm) = FmaTyped d a b c
IsRv32D (Rv32D.fnmadd_d d a b c rm) = FmaTyped d a b c
IsRv32D (Rv32D.fadd_d d a b rm) = RegTyped File.float File.float d a b
IsRv32D (Rv32D.fsub_d d a b rm) = RegTyped File.float File.float d a b
IsRv32D (Rv32D.fmul_d d a b rm) = RegTyped File.float File.float d a b
IsRv32D (Rv32D.fdiv_d d a b rm) = RegTyped File.float File.float d a b
IsRv32D (Rv32D.fsqrt_d d a rm) = MoveTyped File.float File.float d a
IsRv32D (Rv32D.fsgnj_d d a b) = RegTyped File.float File.float d a b
IsRv32D (Rv32D.fsgnjn_d d a b) = RegTyped File.float File.float d a b
IsRv32D (Rv32D.fsgnjx_d d a b) = RegTyped File.float File.float d a b
IsRv32D (Rv32D.fmin_d d a b) = RegTyped File.float File.float d a b
IsRv32D (Rv32D.fmax_d d a b) = RegTyped File.float File.float d a b
IsRv32D (Rv32D.fcvt_s_d d a rm) = MoveTyped File.float File.float d a
IsRv32D (Rv32D.fcvt_d_s d a rm) = MoveTyped File.float File.float d a
IsRv32D (Rv32D.feq_d d a b) = RegTyped File.integer File.float d a b
IsRv32D (Rv32D.flt_d d a b) = RegTyped File.integer File.float d a b
IsRv32D (Rv32D.fle_d d a b) = RegTyped File.integer File.float d a b
IsRv32D (Rv32D.fclass_d d a) = MoveTyped File.integer File.float d a
IsRv32D (Rv32D.fcvt_w_d d a rm) = MoveTyped File.integer File.float d a
IsRv32D (Rv32D.fcvt_wu_d d a rm) = MoveTyped File.integer File.float d a
IsRv32D (Rv32D.fcvt_d_w d a rm) = MoveTyped File.float File.integer d a
IsRv32D (Rv32D.fcvt_d_wu d a rm) = MoveTyped File.float File.integer d a

unfoldable pub IsRv64F : Rv64F → Type 0
unfolding MoveTyped
IsRv64F (Rv64F.fcvt_l_s d a rm) = MoveTyped File.integer File.float d a
IsRv64F (Rv64F.fcvt_lu_s d a rm) = MoveTyped File.integer File.float d a
IsRv64F (Rv64F.fcvt_s_l d a rm) = MoveTyped File.float File.integer d a
IsRv64F (Rv64F.fcvt_s_lu d a rm) = MoveTyped File.float File.integer d a

unfoldable pub IsRv64D : Rv64D → Type 0
unfolding MoveTyped
IsRv64D (Rv64D.fcvt_l_d d a rm) = MoveTyped File.integer File.float d a
IsRv64D (Rv64D.fcvt_lu_d d a rm) = MoveTyped File.integer File.float d a
IsRv64D (Rv64D.fmv_x_d d a) = MoveTyped File.integer File.float d a
IsRv64D (Rv64D.fcvt_d_l d a rm) = MoveTyped File.float File.integer d a
IsRv64D (Rv64D.fcvt_d_lu d a rm) = MoveTyped File.float File.integer d a
IsRv64D (Rv64D.fmv_d_x d a) = MoveTyped File.float File.integer d a

unfoldable pub IsRvb : Rvb → Type 0
unfolding RegTyped UnaryTyped ImmTyped ShiftTyped
IsRvb (Rvb.adduw d a b) = RegTyped File.integer File.integer d a b
IsRvb (Rvb.andn d a b) = RegTyped File.integer File.integer d a b
IsRvb (Rvb.bclr d a b) = RegTyped File.integer File.integer d a b
IsRvb (Rvb.bclri d a i) = ImmTyped d a i
IsRvb (Rvb.bext d a b) = RegTyped File.integer File.integer d a b
IsRvb (Rvb.bexti d a i) = ImmTyped d a i
IsRvb (Rvb.binv d a b) = RegTyped File.integer File.integer d a b
IsRvb (Rvb.binvi d a i) = ImmTyped d a i
IsRvb (Rvb.bset d a b) = RegTyped File.integer File.integer d a b
IsRvb (Rvb.bseti d a i) = ImmTyped d a i
IsRvb (Rvb.clmul d a b) = RegTyped File.integer File.integer d a b
IsRvb (Rvb.clmulh d a b) = RegTyped File.integer File.integer d a b
IsRvb (Rvb.clmulr d a b) = RegTyped File.integer File.integer d a b
IsRvb (Rvb.clz d a) = UnaryTyped d a
IsRvb (Rvb.clzw d a) = UnaryTyped d a
IsRvb (Rvb.cpop d a) = UnaryTyped d a
IsRvb (Rvb.cpopw d a) = UnaryTyped d a
IsRvb (Rvb.ctz d a) = UnaryTyped d a
IsRvb (Rvb.ctzw d a) = UnaryTyped d a
IsRvb (Rvb.max d a b) = RegTyped File.integer File.integer d a b
IsRvb (Rvb.maxu d a b) = RegTyped File.integer File.integer d a b
IsRvb (Rvb.min d a b) = RegTyped File.integer File.integer d a b
IsRvb (Rvb.minu d a b) = RegTyped File.integer File.integer d a b
IsRvb (Rvb.orcb d a b) = RegTyped File.integer File.integer d a b
IsRvb (Rvb.orn d a b) = RegTyped File.integer File.integer d a b
IsRvb (Rvb.rev8 d a) = UnaryTyped d a
IsRvb (Rvb.rol d a b) = RegTyped File.integer File.integer d a b
IsRvb (Rvb.rolw d a b) = RegTyped File.integer File.integer d a b
IsRvb (Rvb.ror d a b) = RegTyped File.integer File.integer d a b
IsRvb (Rvb.rori d a n) = ShiftTyped d a n
IsRvb (Rvb.roriw d a n) = ShiftTyped d a n
IsRvb (Rvb.rorw d a b) = RegTyped File.integer File.integer d a b
IsRvb (Rvb.sextb d a) = UnaryTyped d a
IsRvb (Rvb.sexth d a) = UnaryTyped d a
IsRvb (Rvb.sh1add d a b) = RegTyped File.integer File.integer d a b
IsRvb (Rvb.sh1adduw d a b) = RegTyped File.integer File.integer d a b
IsRvb (Rvb.sh2add d a b) = RegTyped File.integer File.integer d a b
IsRvb (Rvb.sh2adduw d a b) = RegTyped File.integer File.integer d a b
IsRvb (Rvb.sh3add d a b) = RegTyped File.integer File.integer d a b
IsRvb (Rvb.sh3adduw d a b) = RegTyped File.integer File.integer d a b
IsRvb (Rvb.slliuw d a b) = RegTyped File.integer File.integer d a b
IsRvb (Rvb.xnor d a b) = RegTyped File.integer File.integer d a b
IsRvb (Rvb.zexth d a) = UnaryTyped d a

unfoldable pub IsRvPreviledge : RvPreviledge → Type 0
unfolding PairTyped
IsRvPreviledge RvPreviledge.sret = Unit
IsRvPreviledge RvPreviledge.mret = Unit
IsRvPreviledge RvPreviledge.wfi = Unit
IsRvPreviledge (RvPreviledge.sfence_vma a b) = PairTyped a b
IsRvPreviledge (RvPreviledge.sinval_vma a b) = PairTyped a b
IsRvPreviledge RvPreviledge.sfence_w_inval = Unit
IsRvPreviledge RvPreviledge.sfence_inval_ir = Unit

unfoldable pub IsRvZcsr : RvZcsr → Type 0
unfolding CsrTyped CsrImmTyped
IsRvZcsr (RvZcsr.csrrw d a c) = CsrTyped d a c
IsRvZcsr (RvZcsr.csrrs d a c) = CsrTyped d a c
IsRvZcsr (RvZcsr.csrrc d a c) = CsrTyped d a c
IsRvZcsr (RvZcsr.csrrwi d u c) = CsrImmTyped d u c
IsRvZcsr (RvZcsr.csrrsi d u c) = CsrImmTyped d u c
IsRvZcsr (RvZcsr.csrrci d u c) = CsrImmTyped d u c

unfoldable pub IsRvZifencei : RvZifencei → Type 0
unfolding ImmTyped
IsRvZifencei (RvZifencei.fence_i d a i) = ImmTyped d a i
