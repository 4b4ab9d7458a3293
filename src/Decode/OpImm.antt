-- ===== src/Decode/OpImm.antt =====
-- The match arms of `Instruction::parse` in src/frontend/instruction.rs: register-immediate instructions.
-- A function takes the scrutinees of its `match` and the word; the arms stand in source order.
use double_jit_vm.Prelude.{ℕ, ◌/◌, Option, none, ◌==◌, if◌then◌else◌, ◌&&◌, ◌||◌}
use double_jit_vm.Prelude.Outcome.{Outcome, ok, found}
use double_jit_vm.Instr.{Instr}
use double_jit_vm.Instr.Base32.{Rv32I}
use double_jit_vm.Instr.Base64.{Rv64I}
use double_jit_vm.Instr.System.{Rvb}
use double_jit_vm.Decode.Config.{Config, rv32, rv64, rv64_no_e_rvb}
use double_jit_vm.Decode.Format.{gp, i_format, r_format, r_shamt_format, rd_rs_format}

unfoldable pub op_imm_alu : Config → ℕ → ℕ → ℕ → Outcome (Option Instr)
op_imm_alu cfg f3 top6 bit_u32 =
    if f3 == 0b000
    then found (i_format (rv32 cfg) Rv32I.addi gp bit_u32)
    else if f3 == 0b010
    then found (i_format (rv32 cfg) Rv32I.slti gp bit_u32)
    else if f3 == 0b011
    then found (i_format (rv32 cfg) Rv32I.sltiu gp bit_u32)
    else if f3 == 0b100
    then found (i_format (rv32 cfg) Rv32I.xori gp bit_u32)
    else if f3 == 0b110
    then found (i_format (rv32 cfg) Rv32I.ori gp bit_u32)
    else if f3 == 0b111
    then found (i_format (rv32 cfg) Rv32I.andi gp bit_u32)
    else if (f3 == 0b001 || f3 == 0b101)
    then (if f3 == 0b001 && top6 == 0b000000
        then found (r_shamt_format (rv64 cfg) Rv64I.slli gp bit_u32)
        else if f3 == 0b101 && top6 == 0b000000
        then found (r_shamt_format (rv64 cfg) Rv64I.srli gp bit_u32)
        else if f3 == 0b101 && top6 == 0b010000
        then found (r_shamt_format (rv64 cfg) Rv64I.srai gp bit_u32)
        else ok none)
    else ok none

unfoldable pub op_imm_unary : ℕ → ℕ → ℕ → ℕ → Outcome (Option Instr)
op_imm_unary f7 f3 r2 bit_u32 =
    if f7 == 0b0010100 && f3 == 0b101 && r2 == 0b00111
    then found (r_format rv64_no_e_rvb Rvb.orcb gp bit_u32)
    else if f7 == 0b0110101 && f3 == 0b101 && r2 == 0b11000
    then found (rd_rs_format rv64_no_e_rvb Rvb.rev8 gp bit_u32)
    else if f7 == 0b0110000 && f3 == 0b001 && r2 == 0b00000
    then found (rd_rs_format rv64_no_e_rvb Rvb.clz gp bit_u32)
    else if f7 == 0b0110000 && f3 == 0b001 && r2 == 0b00010
    then found (rd_rs_format rv64_no_e_rvb Rvb.cpop gp bit_u32)
    else if f7 == 0b0110000 && f3 == 0b001 && r2 == 0b00001
    then found (rd_rs_format rv64_no_e_rvb Rvb.ctz gp bit_u32)
    else if f7 == 0b0110000 && f3 == 0b001 && r2 == 0b00100
    then found (rd_rs_format rv64_no_e_rvb Rvb.sextb gp bit_u32)
    else if f7 == 0b0110000 && f3 == 0b001 && r2 == 0b00101
    then found (rd_rs_format rv64_no_e_rvb Rvb.sexth gp bit_u32)
    else ok none

unfoldable pub op_imm_single : ℕ → ℕ → ℕ → Outcome (Option Instr)
op_imm_single f7h f3 bit_u32 =
    if f7h == 0b010010 && f3 == 0b001
    then found (i_format rv64_no_e_rvb Rvb.bclri gp bit_u32)
    else if f7h == 0b010010 && f3 == 0b101
    then found (i_format rv64_no_e_rvb Rvb.bexti gp bit_u32)
    else if f7h == 0b011010 && f3 == 0b001
    then found (i_format rv64_no_e_rvb Rvb.binvi gp bit_u32)
    else if f7h == 0b001010 && f3 == 0b001
    then found (i_format rv64_no_e_rvb Rvb.bseti gp bit_u32)
    else if f7h == 0b011000 && f3 == 0b101
    then found (r_shamt_format rv64_no_e_rvb Rvb.rori gp bit_u32)
    else ok none

unfoldable pub op_imm32_alu : Config → ℕ → ℕ → ℕ → Outcome (Option Instr)
op_imm32_alu cfg f3 f7 bit_u32 =
    if f3 == 0b000
    then found (i_format (rv64 cfg) Rv64I.addiw gp bit_u32)
    else if (f3 == 0b001 || f3 == 0b101)
    then (if f3 == 0b001 && f7 == 0b0000000
        then found (r_shamt_format (rv64 cfg) Rv64I.slliw gp bit_u32)
        else if f3 == 0b101 && f7 == 0b0000000
        then found (r_shamt_format (rv64 cfg) Rv64I.srliw gp bit_u32)
        else if f3 == 0b101 && f7 == 0b0100000
        then found (r_shamt_format (rv64 cfg) Rv64I.sraiw gp bit_u32)
        else ok none)
    else ok none

unfoldable pub op_imm32_bit : ℕ → ℕ → ℕ → ℕ → Outcome (Option Instr)
op_imm32_bit f3 f7 r2 bit_u32 =
    if f7 == 0b0110000
    then (if f3 == 0b001
        then (if r2 == 0b00000
            then found (rd_rs_format rv64_no_e_rvb Rvb.clzw gp bit_u32)
            else if r2 == 0b00010
            then found (rd_rs_format rv64_no_e_rvb Rvb.cpopw gp bit_u32)
            else if r2 == 0b00001
            then found (rd_rs_format rv64_no_e_rvb Rvb.ctzw gp bit_u32)
            else ok none)
        else if f3 == 0b101
        then found (r_shamt_format rv64_no_e_rvb Rvb.roriw gp bit_u32)
        else ok none)
    else if f7 / 2 == 0b000010 && f3 == 0b001
    then found (r_format rv64_no_e_rvb Rvb.slliuw gp bit_u32)
    else ok none
