-- ===== src/Decode/Op.antt =====
-- The match arms of `Instruction::parse` in src/frontend/instruction.rs: register-register instructions.
-- A function takes the scrutinees of its `match` and the word; the arms stand in source order.
use double_jit_vm.Prelude.{ℕ, Option, none, ◌==◌, if◌then◌else◌, ◌&&◌}
use double_jit_vm.Prelude.Outcome.{Outcome, ok, found}
use double_jit_vm.Instr.{Instr}
use double_jit_vm.Instr.Base32.{Rv32I}
use double_jit_vm.Instr.Base64.{Rv64I}
use double_jit_vm.Instr.MulAtomic.{Rv32M, Rv64M}
use double_jit_vm.Instr.System.{Rvb}
use double_jit_vm.Field.{rs2}
use double_jit_vm.Decode.Config.{
  Config, rv32, rv32_no_e_rv32m, rv64, rv64_no_e_rv64m, rv64_no_e_rvb,
}
use double_jit_vm.Decode.Format.{gp, r_format, rd_rs_format}

unfoldable pub op_arms : Config → ℕ → ℕ → ℕ → Outcome (Option Instr)
op_arms cfg f3 f7 bit_u32 =
    if f3 == 0b000 && f7 == 0b0000000
    then found (r_format (rv32 cfg) Rv32I.add gp bit_u32)
    else if f3 == 0b000 && f7 == 0b0100000
    then found (r_format (rv32 cfg) Rv32I.sub gp bit_u32)
    else if f3 == 0b001 && f7 == 0b0000000
    then found (r_format (rv32 cfg) Rv32I.sll gp bit_u32)
    else if f3 == 0b010 && f7 == 0b0000000
    then found (r_format (rv32 cfg) Rv32I.slt gp bit_u32)
    else if f3 == 0b011 && f7 == 0b0000000
    then found (r_format (rv32 cfg) Rv32I.sltu gp bit_u32)
    else if f3 == 0b100 && f7 == 0b0000000
    then found (r_format (rv32 cfg) Rv32I.xor gp bit_u32)
    else if f3 == 0b101 && f7 == 0b0000000
    then found (r_format (rv32 cfg) Rv32I.srl gp bit_u32)
    else if f3 == 0b101 && f7 == 0b0100000
    then found (r_format (rv32 cfg) Rv32I.sra gp bit_u32)
    else if f3 == 0b110 && f7 == 0b0000000
    then found (r_format (rv32 cfg) Rv32I.or gp bit_u32)
    else if f3 == 0b111 && f7 == 0b0000000
    then found (r_format (rv32 cfg) Rv32I.and gp bit_u32)
    else if f3 == 0b111 && f7 == 0b0100000
    then found (r_format rv64_no_e_rvb Rvb.andn gp bit_u32)
    else if f3 == 0b110 && f7 == 0b0100000
    then found (r_format rv64_no_e_rvb Rvb.orn gp bit_u32)
    else if f3 == 0b100 && f7 == 0b0100000
    then found (r_format rv64_no_e_rvb Rvb.xnor gp bit_u32)
    else if f3 == 0b001 && f7 == 0b0110000
    then found (r_format rv64_no_e_rvb Rvb.rol gp bit_u32)
    else if f3 == 0b101 && f7 == 0b0110000
    then found (r_format rv64_no_e_rvb Rvb.ror gp bit_u32)
    else if f3 == 0b001 && f7 == 0b0110100
    then found (r_format rv64_no_e_rvb Rvb.binv gp bit_u32)
    else if f3 == 0b001 && f7 == 0b0010100
    then found (r_format rv64_no_e_rvb Rvb.bset gp bit_u32)
    else if f3 == 0b001 && f7 == 0b0100100
    then found (r_format rv64_no_e_rvb Rvb.bclr gp bit_u32)
    else if f3 == 0b101 && f7 == 0b0100100
    then found (r_format rv64_no_e_rvb Rvb.bext gp bit_u32)
    else if f3 == 0b010 && f7 == 0b0010000
    then found (r_format rv64_no_e_rvb Rvb.sh1add gp bit_u32)
    else if f3 == 0b100 && f7 == 0b0010000
    then found (r_format rv64_no_e_rvb Rvb.sh2add gp bit_u32)
    else if f3 == 0b110 && f7 == 0b0010000
    then found (r_format rv64_no_e_rvb Rvb.sh3add gp bit_u32)
    else if f3 == 0b001 && f7 == 0b0000101
    then found (r_format rv64_no_e_rvb Rvb.clmul gp bit_u32)
    else if f3 == 0b011 && f7 == 0b0000101
    then found (r_format rv64_no_e_rvb Rvb.clmulh gp bit_u32)
    else if f3 == 0b010 && f7 == 0b0000101
    then found (r_format rv64_no_e_rvb Rvb.clmulr gp bit_u32)
    else if f3 == 0b100 && f7 == 0b0000101
    then found (r_format rv64_no_e_rvb Rvb.min gp bit_u32)
    else if f3 == 0b101 && f7 == 0b0000101
    then found (r_format rv64_no_e_rvb Rvb.minu gp bit_u32)
    else if f3 == 0b110 && f7 == 0b0000101
    then found (r_format rv64_no_e_rvb Rvb.max gp bit_u32)
    else if f3 == 0b111 && f7 == 0b0000101
    then found (r_format rv64_no_e_rvb Rvb.maxu gp bit_u32)
    else ok none

unfoldable pub op_mul : ℕ → ℕ → Outcome (Option Instr)
op_mul f3 bit_u32 =
    if f3 == 0b000
    then found (r_format rv32_no_e_rv32m Rv32M.mul gp bit_u32)
    else if f3 == 0b001
    then found (r_format rv32_no_e_rv32m Rv32M.mulh gp bit_u32)
    else if f3 == 0b010
    then found (r_format rv32_no_e_rv32m Rv32M.mulhsu gp bit_u32)
    else if f3 == 0b011
    then found (r_format rv32_no_e_rv32m Rv32M.mulhu gp bit_u32)
    else if f3 == 0b100
    then found (r_format rv32_no_e_rv32m Rv32M.div gp bit_u32)
    else if f3 == 0b101
    then found (r_format rv32_no_e_rv32m Rv32M.divu gp bit_u32)
    else if f3 == 0b110
    then found (r_format rv32_no_e_rv32m Rv32M.rem gp bit_u32)
    else if f3 == 0b111
    then found (r_format rv32_no_e_rv32m Rv32M.remu gp bit_u32)
    else ok none

unfoldable pub op32_arms : Config → ℕ → ℕ → ℕ → Outcome (Option Instr)
op32_arms cfg f3 f7 bit_u32 =
    if f3 == 0b000 && f7 == 0b0000000
    then found (r_format (rv64 cfg) Rv64I.addw gp bit_u32)
    else if f3 == 0b000 && f7 == 0b0100000
    then found (r_format (rv64 cfg) Rv64I.subw gp bit_u32)
    else if f3 == 0b001 && f7 == 0b0000000
    then found (r_format (rv64 cfg) Rv64I.sllw gp bit_u32)
    else if f3 == 0b101 && f7 == 0b0000000
    then found (r_format (rv64 cfg) Rv64I.srlw gp bit_u32)
    else if f3 == 0b101 && f7 == 0b0100000
    then found (r_format (rv64 cfg) Rv64I.sraw gp bit_u32)
    else ok none

unfoldable pub op32_bit : Config → ℕ → ℕ → ℕ → Outcome (Option Instr)
op32_bit cfg f3 f7 bit_u32 =
    if f3 == 0b000 && f7 == 0b0000100
    then found (r_format rv64_no_e_rvb Rvb.adduw gp bit_u32)
    else if f3 == 0b001 && f7 == 0b0110000
    then found (r_format rv64_no_e_rvb Rvb.rolw gp bit_u32)
    else if f3 == 0b010 && f7 == 0b0010000
    then found (r_format rv64_no_e_rvb Rvb.sh1adduw gp bit_u32)
    else if f3 == 0b100 && f7 == 0b0000100
    then (if cfg.bit_length == 1 && rs2 bit_u32 == 0
        then found (rd_rs_format rv64_no_e_rvb Rvb.zexth gp bit_u32)
        else ok none)
    else if f3 == 0b100 && f7 == 0b0010000
    then found (r_format rv64_no_e_rvb Rvb.sh2adduw gp bit_u32)
    else if f3 == 0b101 && f7 == 0b0110000
    then found (r_format rv64_no_e_rvb Rvb.rorw gp bit_u32)
    else if f3 == 0b110 && f7 == 0b0010000
    then found (r_format rv64_no_e_rvb Rvb.sh3adduw gp bit_u32)
    else ok none

unfoldable pub op32_mul : ℕ → ℕ → Outcome (Option Instr)
op32_mul f3 bit_u32 =
    if f3 == 0b000
    then found (r_format rv64_no_e_rv64m Rv64M.mulw gp bit_u32)
    else if f3 == 0b100
    then found (r_format rv64_no_e_rv64m Rv64M.divw gp bit_u32)
    else if f3 == 0b101
    then found (r_format rv64_no_e_rv64m Rv64M.divuw gp bit_u32)
    else if f3 == 0b110
    then found (r_format rv64_no_e_rv64m Rv64M.remw gp bit_u32)
    else if f3 == 0b111
    then found (r_format rv64_no_e_rv64m Rv64M.remuw gp bit_u32)
    else ok none
