-- ===== src/Decode/Base.antt =====
-- The match arms of `Instruction::parse` in src/frontend/instruction.rs: jumps, loads, branches and stores.
-- A function takes the scrutinees of its `match` and the word; the arms stand in source order.
use double_jit_vm.Prelude.{ℕ, Option, none, ◌==◌, if◌then◌else◌}
use double_jit_vm.Prelude.Outcome.{Outcome, ok, found}
use double_jit_vm.Instr.{Instr}
use double_jit_vm.Instr.Base32.{Rv32I}
use double_jit_vm.Instr.Base64.{Rv64I}
use double_jit_vm.Decode.Config.{Config, rv32, rv64}
use double_jit_vm.Decode.Format.{b_format, gp, i_format, s_format}

unfoldable pub jalr_arms : Config → ℕ → ℕ → Outcome (Option Instr)
jalr_arms cfg f3 bit_u32 =
    if f3 == 0b000 then found (i_format (rv32 cfg) Rv32I.jalr gp bit_u32) else ok none

unfoldable pub load_arms : Config → ℕ → ℕ → Outcome (Option Instr)
load_arms cfg f3 bit_u32 =
    if f3 == 0b000
    then found (i_format (rv32 cfg) Rv32I.lb gp bit_u32)
    else if f3 == 0b001
    then found (i_format (rv32 cfg) Rv32I.lh gp bit_u32)
    else if f3 == 0b010
    then found (i_format (rv32 cfg) Rv32I.lw gp bit_u32)
    else if f3 == 0b100
    then found (i_format (rv32 cfg) Rv32I.lbu gp bit_u32)
    else if f3 == 0b101
    then found (i_format (rv32 cfg) Rv32I.lhu gp bit_u32)
    else if f3 == 0b110
    then found (i_format (rv64 cfg) Rv64I.lwu gp bit_u32)
    else if f3 == 0b011
    then found (i_format (rv64 cfg) Rv64I.ld gp bit_u32)
    else ok none

unfoldable pub branch_arms : Config → ℕ → ℕ → Outcome (Option Instr)
branch_arms cfg f3 bit_u32 =
    if f3 == 0b000
    then found (b_format (rv32 cfg) Rv32I.beq gp bit_u32)
    else if f3 == 0b001
    then found (b_format (rv32 cfg) Rv32I.bne gp bit_u32)
    else if f3 == 0b100
    then found (b_format (rv32 cfg) Rv32I.blt gp bit_u32)
    else if f3 == 0b101
    then found (b_format (rv32 cfg) Rv32I.bge gp bit_u32)
    else if f3 == 0b110
    then found (b_format (rv32 cfg) Rv32I.bltu gp bit_u32)
    else if f3 == 0b111
    then found (b_format (rv32 cfg) Rv32I.bgeu gp bit_u32)
    else ok none

unfoldable pub store_arms : Config → ℕ → ℕ → Outcome (Option Instr)
store_arms cfg f3 bit_u32 =
    if f3 == 0b000
    then found (s_format (rv32 cfg) Rv32I.sb gp bit_u32)
    else if f3 == 0b001
    then found (s_format (rv32 cfg) Rv32I.sh gp bit_u32)
    else if f3 == 0b010
    then found (s_format (rv32 cfg) Rv32I.sw gp bit_u32)
    else if f3 == 0b011
    then found (s_format (rv64 cfg) Rv64I.sd gp bit_u32)
    else ok none
