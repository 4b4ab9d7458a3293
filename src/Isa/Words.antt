-- ===== src/Isa/Words.antt =====
-- The formats: a word as the sum of its fields, each at its place.
use double_jit_vm.Prelude.{ℕ, ◌+◌, ◌*◌, ◌/◌, ◌%◌, ◌^◌}

-- What names an instruction in a format: the opcode and the function codes.
pub record Code : Type 0 where
  pub opcode : ℕ
  pub funct3 : ℕ
  pub funct7 : ℕ

abbrev pub code : ℕ → ℕ → ℕ → Code
code opcode funct7 funct3 = record { opcode = opcode; funct3 = funct3; funct7 = funct7 }

-- opcode 7, rd 5, funct3 3, rs1 5, rs2 5, funct7 7 bits
abbrev pub r_word : Code → ℕ → ℕ → ℕ → ℕ
r_word c d a b =
    c.opcode + d * 2 ^ 7 + c.funct3 * 2 ^ 12 + a * 2 ^ 15 + b * 2 ^ 20 + c.funct7 * 2 ^ 25

abbrev pub i_word : Code → ℕ → ℕ → ℕ → ℕ
i_word c d a imm = c.opcode + d * 2 ^ 7 + c.funct3 * 2 ^ 12 + a * 2 ^ 15 + imm * 2 ^ 20

abbrev pub s_word : Code → ℕ → ℕ → ℕ → ℕ
s_word c a b imm =
    c.opcode + imm % 32 * 2 ^ 7 + c.funct3 * 2 ^ 12 + a * 2 ^ 15 + b * 2 ^ 20 + imm / 32 * 2 ^ 25

-- A branch offset has 13 bits, the lowest of them 0: offset[11] stands at bit 7, offset[12] at 31.
abbrev pub b_word : Code → ℕ → ℕ → ℕ → ℕ
b_word c a b offset =
    c.opcode
    + offset / 2 ^ 11 % 2 * 2 ^ 7
    + offset / 2 % 16 * 2 ^ 8
    + c.funct3 * 2 ^ 12
    + a * 2 ^ 15
    + b * 2 ^ 20
    + offset / 2 ^ 5 % 64 * 2 ^ 25
    + offset / 2 ^ 12 * 2 ^ 31

-- A jump offset has 21 bits, the lowest of them 0.
abbrev pub j_word : ℕ → ℕ → ℕ → ℕ
j_word opcode d offset =
    opcode
    + d * 2 ^ 7
    + offset / 2 ^ 12 % 256 * 2 ^ 12
    + offset / 2 ^ 11 % 2 * 2 ^ 20
    + offset / 2 % 1024 * 2 ^ 21
    + offset / 2 ^ 20 * 2 ^ 31

abbrev pub u_word : ℕ → ℕ → ℕ → ℕ
u_word opcode d upper = opcode + d * 2 ^ 7 + upper * 2 ^ 12
