-- ===== src/Decode/Typed/Integer.antt =====
-- The operands of the base, multiplication and atomic instructions of src/frontend/instruction.rs.
use double_jit_vm.Instr.Base32.{Rv32I}
use double_jit_vm.Instr.Base64.{Rv64I, Rv128I}
use double_jit_vm.Instr.MulAtomic.{Rv32M, Rv64M, Rv32A, Rv64A}
use double_jit_vm.Decode.Typed.Operands.{
  File, RegTyped, MoveTyped, UpperTyped, ImmTyped, StoreTyped, ShiftTyped, FenceTyped,
}

unfoldable pub IsRv32I : Rv32I → Type 0
unfolding RegTyped UpperTyped ImmTyped StoreTyped ShiftTyped FenceTyped
IsRv32I (Rv32I.lui d i) = UpperTyped d i
IsRv32I (Rv32I.auipc d i) = UpperTyped d i
IsRv32I (Rv32I.jal d i) = UpperTyped d i
IsRv32I (Rv32I.jalr d a i) = ImmTyped d a i
IsRv32I (Rv32I.beq a b i) = StoreTyped a b i
IsRv32I (Rv32I.bne a b i) = StoreTyped a b i
IsRv32I (Rv32I.blt a b i) = StoreTyped a b i
IsRv32I (Rv32I.bge a b i) = StoreTyped a b i
IsRv32I (Rv32I.bltu a b i) = StoreTyped a b i
IsRv32I (Rv32I.bgeu a b i) = StoreTyped a b i
IsRv32I (Rv32I.lb d a i) = ImmTyped d a i
IsRv32I (Rv32I.lh d a i) = ImmTyped d a i
IsRv32I (Rv32I.lw d a i) = ImmTyped d a i
IsRv32I (Rv32I.lbu d a i) = ImmTyped d a i
IsRv32I (Rv32I.lhu d a i) = ImmTyped d a i
IsRv32I (Rv32I.sb a b i) = StoreTyped a b i
IsRv32I (Rv32I.sh a b i) = StoreTyped a b i
IsRv32I (Rv32I.sw a b i) = StoreTyped a b i
IsRv32I (Rv32I.addi d a i) = ImmTyped d a i
IsRv32I (Rv32I.slti d a i) = ImmTyped d a i
IsRv32I (Rv32I.sltiu d a i) = ImmTyped d a i
IsRv32I (Rv32I.xori d a i) = ImmTyped d a i
IsRv32I (Rv32I.ori d a i) = ImmTyped d a i
IsRv32I (Rv32I.andi d a i) = ImmTyped d a i
IsRv32I (Rv32I.slli d a n) = ShiftTyped d a n
IsRv32I (Rv32I.srli d a n) = ShiftTyped d a n
IsRv32I (Rv32I.srai d a n) = ShiftTyped d a n
IsRv32I (Rv32I.add d a b) = RegTyped File.integer File.integer d a b
IsRv32I (Rv32I.sub d a b) = RegTyped File.integer File.integer d a b
IsRv32I (Rv32I.sll d a b) = RegTyped File.integer File.integer d a b
IsRv32I (Rv32I.slt d a b) = RegTyped File.integer File.integer d a b
IsRv32I (Rv32I.sltu d a b) = RegTyped File.integer File.integer d a b
IsRv32I (Rv32I.xor d a b) = RegTyped File.integer File.integer d a b
IsRv32I (Rv32I.srl d a b) = RegTyped File.integer File.integer d a b
IsRv32I (Rv32I.sra d a b) = RegTyped File.integer File.integer d a b
IsRv32I (Rv32I.or d a b) = RegTyped File.integer File.integer d a b
IsRv32I (Rv32I.and d a b) = RegTyped File.integer File.integer d a b
IsRv32I (Rv32I.fence d a s p m) = FenceTyped d a s p m
IsRv32I Rv32I.fence_tso = Unit
IsRv32I Rv32I.pause = Unit
IsRv32I Rv32I.ecall = Unit
IsRv32I Rv32I.ebreak = Unit

unfoldable pub IsRv64I : Rv64I → Type 0
unfolding RegTyped ImmTyped StoreTyped ShiftTyped
IsRv64I (Rv64I.lwu d a i) = ImmTyped d a i
IsRv64I (Rv64I.ld d a i) = ImmTyped d a i
IsRv64I (Rv64I.sd a b i) = StoreTyped a b i
IsRv64I (Rv64I.slli d a n) = ShiftTyped d a n
IsRv64I (Rv64I.srli d a n) = ShiftTyped d a n
IsRv64I (Rv64I.srai d a n) = ShiftTyped d a n
IsRv64I (Rv64I.addiw d a i) = ImmTyped d a i
IsRv64I (Rv64I.slliw d a n) = ShiftTyped d a n
IsRv64I (Rv64I.srliw d a n) = ShiftTyped d a n
IsRv64I (Rv64I.sraiw d a n) = ShiftTyped d a n
IsRv64I (Rv64I.addw d a b) = RegTyped File.integer File.integer d a b
IsRv64I (Rv64I.subw d a b) = RegTyped File.integer File.integer d a b
IsRv64I (Rv64I.sllw d a b) = RegTyped File.integer File.integer d a b
IsRv64I (Rv64I.srlw d a b) = RegTyped File.integer File.integer d a b
IsRv64I (Rv64I.sraw d a b) = RegTyped File.integer File.integer d a b

unfoldable pub IsRv128I : Rv128I → Type 0
unfolding RegTyped ImmTyped StoreTyped ShiftTyped
IsRv128I (Rv128I.ldu d a i) = ImmTyped d a i
IsRv128I (Rv128I.ld d a i) = ImmTyped d a i
IsRv128I (Rv128I.sd a b i) = StoreTyped a b i
IsRv128I (Rv128I.slli d a n) = ShiftTyped d a n
IsRv128I (Rv128I.srli d a n) = ShiftTyped d a n
IsRv128I (Rv128I.srai d a n) = ShiftTyped d a n
IsRv128I (Rv128I.addid d a i) = ImmTyped d a i
IsRv128I (Rv128I.sllid d a n) = ShiftTyped d a n
IsRv128I (Rv128I.srlid d a n) = ShiftTyped d a n
IsRv128I (Rv128I.sraid d a n) = ShiftTyped d a n
IsRv128I (Rv128I.addd d a b) = RegTyped File.integer File.integer d a b
IsRv128I (Rv128I.subd d a b) = RegTyped File.integer File.integer d a b
IsRv128I (Rv128I.slld d a b) = RegTyped File.integer File.integer d a b
IsRv128I (Rv128I.srld d a b) = RegTyped File.integer File.integer d a b
IsRv128I (Rv128I.srad d a b) = RegTyped File.integer File.integer d a b

unfoldable pub IsRv32M : Rv32M → Type 0
unfolding RegTyped
IsRv32M (Rv32M.mul d a b) = RegTyped File.integer File.integer d a b
IsRv32M (Rv32M.mulh d a b) = RegTyped File.integer File.integer d a b
IsRv32M (Rv32M.mulhsu d a b) = RegTyped File.integer File.integer d a b
IsRv32M (Rv32M.mulhu d a b) = RegTyped File.integer File.integer d a b
IsRv32M (Rv32M.div d a b) = RegTyped File.integer File.integer d a b
IsRv32M (Rv32M.divu d a b) = RegTyped File.integer File.integer d a b
IsRv32M (Rv32M.rem d a b) = RegTyped File.integer File.integer d a b
IsRv32M (Rv32M.remu d a b) = RegTyped File.integer File.integer d a b

unfoldable pub IsRv64M : Rv64M → Type 0
unfolding RegTyped
IsRv64M (Rv64M.mulw d a b) = RegTyped File.integer File.integer d a b
IsRv64M (Rv64M.divw d a b) = RegTyped File.integer File.integer d a b
IsRv64M (Rv64M.divuw d a b) = RegTyped File.integer File.integer d a b
IsRv64M (Rv64M.remw d a b) = RegTyped File.integer File.integer d a b
IsRv64M (Rv64M.remuw d a b) = RegTyped File.integer File.integer d a b

unfoldable pub IsRv32A : Rv32A → Type 0
unfolding RegTyped MoveTyped
IsRv32A (Rv32A.lr_w d a aq rl) = MoveTyped File.integer File.integer d a
IsRv32A (Rv32A.sc_w d a b aq rl) = RegTyped File.integer File.integer d a b
IsRv32A (Rv32A.amoswap_w d a b aq rl) = RegTyped File.integer File.integer d a b
IsRv32A (Rv32A.amoadd_w d a b aq rl) = RegTyped File.integer File.integer d a b
IsRv32A (Rv32A.amoxor_w d a b aq rl) = RegTyped File.integer File.integer d a b
IsRv32A (Rv32A.amoand_w d a b aq rl) = RegTyped File.integer File.integer d a b
IsRv32A (Rv32A.amoor_w d a b aq rl) = RegTyped File.integer File.integer d a b
IsRv32A (Rv32A.amomin_w d a b aq rl) = RegTyped File.integer File.integer d a b
IsRv32A (Rv32A.amomax_w d a b aq rl) = RegTyped File.integer File.integer d a b
IsRv32A (Rv32A.amominu_w d a b aq rl) = RegTyped File.integer File.integer d a b
IsRv32A (Rv32A.amomaxu_w d a b aq rl) = RegTyped File.integer File.integer d a b

unfoldable pub IsRv64A : Rv64A → Type 0
unfolding RegTyped MoveTyped
IsRv64A (Rv64A.lr_d d a aq rl) = MoveTyped File.integer File.integer d a
IsRv64A (Rv64A.sc_d d a b aq rl) = RegTyped File.integer File.integer d a b
IsRv64A (Rv64A.amoswap_d d a b aq rl) = RegTyped File.integer File.integer d a b
IsRv64A (Rv64A.amoadd_d d a b aq rl) = RegTyped File.integer File.integer d a b
IsRv64A (Rv64A.amoxor_d d a b aq rl) = RegTyped File.integer File.integer d a b
IsRv64A (Rv64A.amoand_d d a b aq rl) = RegTyped File.integer File.integer d a b
IsRv64A (Rv64A.amoor_d d a b aq rl) = RegTyped File.integer File.integer d a b
IsRv64A (Rv64A.amomin_d d a b aq rl) = RegTyped File.integer File.integer d a b
IsRv64A (Rv64A.amomax_d d a b aq rl) = RegTyped File.integer File.integer d a b
IsRv64A (Rv64A.amominu_d d a b aq rl) = RegTyped File.integer File.integer d a b
IsRv64A (Rv64A.amomaxu_d d a b aq rl) = RegTyped File.integer File.integer d a b
