-- ===== src/Decode/Config.antt =====
-- The statics of src/frontend/mod.rs that the decoder reads, and the macros of
-- src/frontend/instruction.rs that wrap a variant into `Instr`: with `IS_E` set, `rv32!` and `rv64!`
-- take the variant of the same name of the embedded enum.
use double_jit_vm.Prelude.{ℕ, Bool, if◌then◌else◌}
use double_jit_vm.Instr.{Instr, Rv32Instr, Rv64Instr, Rv128Instr}
use double_jit_vm.Instr.Base32.{Rv32I, Rv32E}
use double_jit_vm.Instr.Base64.{Rv64I, Rv64E, Rv128I}
use double_jit_vm.Instr.MulAtomic.{Rv32M, Rv32A, Rv64M, Rv64A}
use double_jit_vm.Instr.Float.{Rv32F, Rv32D, Rv64F, Rv64D}
use double_jit_vm.Instr.System.{Rvb, RvPreviledge, RvZcsr, RvZifencei}

-- `BIT_LENGTH` (0, 1 or 2 for 32, 64 or 128 bits) and `IS_E`.
pub record Config : Type 0 where
  pub bit_length : ℕ
  pub is_e : Bool

unfoldable pub rv32i_to_e : Rv32I → Rv32E
rv32i_to_e (Rv32I.lui a b) = Rv32E.lui a b
rv32i_to_e (Rv32I.auipc a b) = Rv32E.auipc a b
rv32i_to_e (Rv32I.jal a b) = Rv32E.jal a b
rv32i_to_e (Rv32I.jalr a b c) = Rv32E.jalr a b c
rv32i_to_e (Rv32I.beq a b c) = Rv32E.beq a b c
rv32i_to_e (Rv32I.bne a b c) = Rv32E.bne a b c
rv32i_to_e (Rv32I.blt a b c) = Rv32E.blt a b c
rv32i_to_e (Rv32I.bge a b c) = Rv32E.bge a b c
rv32i_to_e (Rv32I.bltu a b c) = Rv32E.bltu a b c
rv32i_to_e (Rv32I.bgeu a b c) = Rv32E.bgeu a b c
rv32i_to_e (Rv32I.lb a b c) = Rv32E.lb a b c
rv32i_to_e (Rv32I.lh a b c) = Rv32E.lh a b c
rv32i_to_e (Rv32I.lw a b c) = Rv32E.lw a b c
rv32i_to_e (Rv32I.lbu a b c) = Rv32E.lbu a b c
rv32i_to_e (Rv32I.lhu a b c) = Rv32E.lhu a b c
rv32i_to_e (Rv32I.sb a b c) = Rv32E.sb a b c
rv32i_to_e (Rv32I.sh a b c) = Rv32E.sh a b c
rv32i_to_e (Rv32I.sw a b c) = Rv32E.sw a b c
rv32i_to_e (Rv32I.addi a b c) = Rv32E.addi a b c
rv32i_to_e (Rv32I.slti a b c) = Rv32E.slti a b c
rv32i_to_e (Rv32I.sltiu a b c) = Rv32E.sltiu a b c
rv32i_to_e (Rv32I.xori a b c) = Rv32E.xori a b c
rv32i_to_e (Rv32I.ori a b c) = Rv32E.ori a b c
rv32i_to_e (Rv32I.andi a b c) = Rv32E.andi a b c
rv32i_to_e (Rv32I.slli a b c) = Rv32E.slli a b c
rv32i_to_e (Rv32I.srli a b c) = Rv32E.srli a b c
rv32i_to_e (Rv32I.srai a b c) = Rv32E.srai a b c
rv32i_to_e (Rv32I.add a b c) = Rv32E.add a b c
rv32i_to_e (Rv32I.sub a b c) = Rv32E.sub a b c
rv32i_to_e (Rv32I.sll a b c) = Rv32E.sll a b c
rv32i_to_e (Rv32I.slt a b c) = Rv32E.slt a b c
rv32i_to_e (Rv32I.sltu a b c) = Rv32E.sltu a b c
rv32i_to_e (Rv32I.xor a b c) = Rv32E.xor a b c
rv32i_to_e (Rv32I.srl a b c) = Rv32E.srl a b c
rv32i_to_e (Rv32I.sra a b c) = Rv32E.sra a b c
rv32i_to_e (Rv32I.or a b c) = Rv32E.or a b c
rv32i_to_e (Rv32I.and a b c) = Rv32E.and a b c
rv32i_to_e (Rv32I.fence a b c d e) = Rv32E.fence a b c d e
rv32i_to_e Rv32I.fence_tso = Rv32E.fence_tso
rv32i_to_e Rv32I.pause = Rv32E.pause
rv32i_to_e Rv32I.ecall = Rv32E.ecall
rv32i_to_e Rv32I.ebreak = Rv32E.ebreak

unfoldable pub rv64i_to_e : Rv64I → Rv64E
rv64i_to_e (Rv64I.lwu a b c) = Rv64E.lwu a b c
rv64i_to_e (Rv64I.ld a b c) = Rv64E.ld a b c
rv64i_to_e (Rv64I.sd a b c) = Rv64E.sd a b c
rv64i_to_e (Rv64I.slli a b c) = Rv64E.slli a b c
rv64i_to_e (Rv64I.srli a b c) = Rv64E.srli a b c
rv64i_to_e (Rv64I.srai a b c) = Rv64E.srai a b c
rv64i_to_e (Rv64I.addiw a b c) = Rv64E.addiw a b c
rv64i_to_e (Rv64I.slliw a b c) = Rv64E.slliw a b c
rv64i_to_e (Rv64I.srliw a b c) = Rv64E.srliw a b c
rv64i_to_e (Rv64I.sraiw a b c) = Rv64E.sraiw a b c
rv64i_to_e (Rv64I.addw a b c) = Rv64E.addw a b c
rv64i_to_e (Rv64I.subw a b c) = Rv64E.subw a b c
rv64i_to_e (Rv64I.sllw a b c) = Rv64E.sllw a b c
rv64i_to_e (Rv64I.srlw a b c) = Rv64E.srlw a b c
rv64i_to_e (Rv64I.sraw a b c) = Rv64E.sraw a b c

unfoldable pub rv32 : Config → Rv32I → Instr
unfolding rv32i_to_e
rv32 cfg i =
    if cfg.is_e then Instr.rv32 (Rv32Instr.rv32e (rv32i_to_e i)) else Instr.rv32 (Rv32Instr.rv32i i)

unfoldable pub rv64 : Config → Rv64I → Instr
unfolding rv64i_to_e
rv64 cfg i =
    if cfg.is_e then Instr.rv64 (Rv64Instr.rv64e (rv64i_to_e i)) else Instr.rv64 (Rv64Instr.rv64i i)

unfoldable pub rv32_no_e_rv32m : Rv32M → Instr
rv32_no_e_rv32m i = Instr.rv32 (Rv32Instr.rv32m i)

unfoldable pub rv32_no_e_rv32a : Rv32A → Instr
rv32_no_e_rv32a i = Instr.rv32 (Rv32Instr.rv32a i)

unfoldable pub rv32_no_e_rv32f : Rv32F → Instr
rv32_no_e_rv32f i = Instr.rv32 (Rv32Instr.rv32f i)

unfoldable pub rv32_no_e_rv32d : Rv32D → Instr
rv32_no_e_rv32d i = Instr.rv32 (Rv32Instr.rv32d i)

unfoldable pub rv64_no_e_rv64m : Rv64M → Instr
rv64_no_e_rv64m i = Instr.rv64 (Rv64Instr.rv64m i)

unfoldable pub rv64_no_e_rv64a : Rv64A → Instr
rv64_no_e_rv64a i = Instr.rv64 (Rv64Instr.rv64a i)

unfoldable pub rv64_no_e_rv64f : Rv64F → Instr
rv64_no_e_rv64f i = Instr.rv64 (Rv64Instr.rv64f i)

unfoldable pub rv64_no_e_rv64d : Rv64D → Instr
rv64_no_e_rv64d i = Instr.rv64 (Rv64Instr.rv64d i)

unfoldable pub rv64_no_e_rvb : Rvb → Instr
rv64_no_e_rvb i = Instr.rv64 (Rv64Instr.rvb i)

unfoldable pub rv64_no_e_rvzifencei : RvZifencei → Instr
rv64_no_e_rvzifencei i = Instr.rv64 (Rv64Instr.rvzifencei i)

unfoldable pub rv64_no_e_rvzcsr : RvZcsr → Instr
rv64_no_e_rvzcsr i = Instr.rv64 (Rv64Instr.rvzcsr i)

unfoldable pub rv64_no_e_rvpreviledge : RvPreviledge → Instr
rv64_no_e_rvpreviledge i = Instr.rv64 (Rv64Instr.rvpreviledge i)

unfoldable pub rv128_rv128i : Rv128I → Instr
rv128_rv128i i = Instr.rv128 (Rv128Instr.rv128i i)
