-- ===== src/Isa/BitOps.antt =====
-- The instructions of the bit manipulation extension that name a bit or an amount by a constant of six
-- bits, under six bits of function code, and what the decoder makes of the constant.
use double_jit_vm.Prelude.{ℕ, ◌+◌, ◌*◌, ◌%◌, ◌^◌}
use double_jit_vm.Instr.{Instr}
use double_jit_vm.Instr.Operand.{Rd, Rs1, Imm32}
use double_jit_vm.Instr.System.{Rvb}
use double_jit_vm.Decode.Config.{rv64_no_e_rvb}
use double_jit_vm.Compressed.Quadrants.{x_rs2}
use double_jit_vm.Isa.Words.{Code, code}

pub data BitOp : Type 0 where
  bclri bexti binvi bseti slliuw : BitOp

-- `funct7` is the code of six bits.
abbrev pub bit_code : BitOp → Code
bit_code BitOp.bclri = code 0b0010011 0b010010 0b001
bit_code BitOp.bexti = code 0b0010011 0b010010 0b101
bit_code BitOp.binvi = code 0b0010011 0b011010 0b001
bit_code BitOp.bseti = code 0b0010011 0b001010 0b001
bit_code BitOp.slliuw = code 0b0011011 0b000010 0b001

-- The immediate that the decoder reads holds the code above the constant; SLLI.UW gets a register in
-- the place of its amount.
abbrev pub bit_decoded : BitOp → Rd → Rs1 → ℕ → Instr
bit_decoded BitOp.bclri d a n = rv64_no_e_rvb (Rvb.bclri d a (Imm32.imm (n + 0b010010 * 2 ^ 6)))
bit_decoded BitOp.bexti d a n = rv64_no_e_rvb (Rvb.bexti d a (Imm32.imm (n + 0b010010 * 2 ^ 6)))
bit_decoded BitOp.binvi d a n = rv64_no_e_rvb (Rvb.binvi d a (Imm32.imm (n + 0b011010 * 2 ^ 6)))
bit_decoded BitOp.bseti d a n = rv64_no_e_rvb (Rvb.bseti d a (Imm32.imm (n + 0b001010 * 2 ^ 6)))
bit_decoded BitOp.slliuw d a n = rv64_no_e_rvb (Rvb.slliuw d a (x_rs2 (n % 32)))
