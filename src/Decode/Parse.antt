-- ===== src/Decode/Parse.antt =====
-- `Instruction::parse` of src/frontend/instruction.rs, from the bytes to the instruction.
use double_jit_vm.Prelude.{
  ℕ, ◌+◌, ◌*◌, ◌/◌, ◌^◌, Option, none, some, List, ◌∷◌, ◌==◌, if◌then◌else◌,
}
use double_jit_vm.Prelude.Outcome.{Outcome, ok, panic, ◌>>=◌, found, or_else, unwrap, out_of_range}
use double_jit_vm.Field.{slice, funct2, funct3, funct5, funct7, rs2, itype_immediate}
use double_jit_vm.Instr.{Instr}
use double_jit_vm.Instr.Base32.{Rv32I}
use double_jit_vm.Instr.System.{RvZifencei}
use double_jit_vm.Compressed.{try_from_compressed}
use double_jit_vm.Decode.Config.{Config, rv32, rv64_no_e_rvzifencei}
use double_jit_vm.Decode.Format.{gp, u_format, j_format, i_format, fence_format}
use double_jit_vm.Decode.Base.{jalr_arms, load_arms, branch_arms, store_arms}
use double_jit_vm.Decode.OpImm.{op_imm_alu, op_imm_unary, op_imm_single, op_imm32_alu, op_imm32_bit}
use double_jit_vm.Decode.Op.{op_arms, op_mul, op32_arms, op32_bit, op32_mul}
use double_jit_vm.Decode.System.{system_arms, amo_arms}
use double_jit_vm.Decode.Float.{op_fp_arms, fmadd_arms, fmsub_arms, fnmadd_arms, fnmsub_arms}

module _ (cfg : Config) (bit_u32 : ℕ) where
  unfoldable pub parse_op_imm : Outcome (Option Instr)
  parse_op_imm = or_else (op_imm_alu cfg (funct3 bit_u32) (funct7 bit_u32 / 2) bit_u32) (
      or_else (op_imm_unary (funct7 bit_u32) (funct3 bit_u32) (rs2 bit_u32) bit_u32)
        (op_imm_single (funct7 bit_u32 / 2) (funct3 bit_u32) bit_u32))

  unfoldable pub parse_op : Outcome (Option Instr)
  parse_op =
      or_else (op_arms cfg (funct3 bit_u32) (funct7 bit_u32) bit_u32)
        (op_mul (funct3 bit_u32) bit_u32)

  unfoldable pub fence_arms : ℕ → Outcome (Option Instr)
  fence_arms f3 =
      if f3 == 0b000
      then (if bit_u32 == 0b1000_0011_0011_00000_000_00000_0001111
          then found (ok (rv32 cfg Rv32I.fence_tso))
          else if bit_u32 == 0b0000_0001_0000_00000_000_00000_0001111
          then found (ok (rv32 cfg Rv32I.pause))
          else found (fence_format (rv32 cfg) Rv32I.fence gp bit_u32))
      else if f3 == 0b001
      then found (i_format rv64_no_e_rvzifencei RvZifencei.fence_i gp bit_u32)
      else ok none

  unfoldable pub parse_op32 : Outcome (Option Instr)
  parse_op32 =
      or_else
        (or_else (op32_arms cfg (funct3 bit_u32) (funct7 bit_u32) bit_u32)
          (op32_bit cfg (funct3 bit_u32) (funct7 bit_u32) bit_u32))
        (op32_mul (funct3 bit_u32) bit_u32)

  unfoldable pub parse_op_imm32 : Outcome (Option Instr)
  parse_op_imm32 =
      or_else (op_imm32_alu cfg (funct3 bit_u32) (funct7 bit_u32) bit_u32)
        (op_imm32_bit (funct3 bit_u32) (funct7 bit_u32) (rs2 bit_u32) bit_u32)

  -- `match opcode`, in source order.
  unfoldable pub opcode_arms : ℕ → Outcome (Option Instr)
  opcode_arms opcode =
      if opcode == 0b0110111
      then found (u_format (rv32 cfg) Rv32I.lui gp bit_u32)
      else if opcode == 0b0010111
      then found (u_format (rv32 cfg) Rv32I.auipc gp bit_u32)
      else if opcode == 0b1101111
      then found (j_format (rv32 cfg) Rv32I.jal gp bit_u32)
      else if opcode == 0b1100111
      then jalr_arms cfg (funct3 bit_u32) bit_u32
      else if opcode == 0b0000011
      then load_arms cfg (funct3 bit_u32) bit_u32
      else if opcode == 0b0010011
      then parse_op_imm
      else if opcode == 0b1100011
      then branch_arms cfg (funct3 bit_u32) bit_u32
      else if opcode == 0b0100011
      then store_arms cfg (funct3 bit_u32) bit_u32
      else if opcode == 0b0110011
      then parse_op
      else if opcode == 0b0001111
      then fence_arms (funct3 bit_u32)
      else if opcode == 0b1110011
      then system_arms cfg (funct3 bit_u32) (funct7 bit_u32) (rs2 bit_u32) (itype_immediate bit_u32)
          bit_u32
      else if opcode == 0b0101111
      then amo_arms (funct3 bit_u32) (funct5 bit_u32) bit_u32
      else if opcode == 0b0111011
      then parse_op32
      else if opcode == 0b0011011
      then parse_op_imm32
      else if opcode == 0b1010011
      then op_fp_arms (funct7 bit_u32) (funct3 bit_u32) (rs2 bit_u32) bit_u32
      else if opcode == 0b1000011
      then fmadd_arms (funct2 bit_u32) bit_u32
      else if opcode == 0b1000111
      then fmsub_arms (funct2 bit_u32) bit_u32
      else if opcode == 0b1001111
      then fnmadd_arms (funct2 bit_u32) bit_u32
      else if opcode == 0b1001011
      then fnmsub_arms (funct2 bit_u32) bit_u32
      else ok none

-- The 32-bit decoder, with its final `unwrap`.
unfoldable pub parse_full : Config → ℕ → Outcome Instr
parse_full cfg bit_u32 = opcode_arms cfg bit_u32 (slice bit_u32 0 7 0) >>= unwrap

-- `parse` on the word that the first four bytes hold.
unfoldable pub parse_word : Config → ℕ → Outcome Instr
parse_word cfg bit_u32 = try_from_compressed cfg bit_u32 >>= λ c. elim c [
  | some i ↦ ok i
  | none ↦ parse_full cfg bit_u32
]

-- `u32::from_le_bytes(bit.split_at(4).0.try_into().unwrap())`: `split_at` panics on a shorter slice.
unfoldable pub le_word : List ℕ → Outcome ℕ
le_word (a ∷ b ∷ c ∷ d ∷ rest) = ok (a + b * 2 ^ 8 + c * 2 ^ 16 + d * 2 ^ 24)
le_word _ = panic out_of_range

unfoldable pub parse : Config → List ℕ → Outcome Instr
parse cfg bit = le_word bit >>= parse_word cfg
