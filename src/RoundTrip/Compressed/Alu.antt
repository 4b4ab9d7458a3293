-- ===== src/RoundTrip/Compressed/Alu.antt =====
-- Quadrant 1: arithmetic over x8 to x15.
use Prim.Native.Nat.{bit_and, bit_or}
use double_jit_vm.Prelude.{ℕ, ◌+◌, ◌*◌, ◌/◌, ◌%◌, ◌^◌, ◌<◌, ◌≡◌, some, arith}
use double_jit_vm.Word.{bits_at, sign_extend}
use double_jit_vm.Bits.{bit_and-field_mask, bit_and-low_mask, bit_or-fields_flip}
use double_jit_vm.Field.Compressed.Laws.{
  c_r_lem, c_immediate_lem, c_uimmediate_lem, misc_alu_key_lem, shift_key_lem, shift_low_key_lem,
}
use double_jit_vm.Isa.Compressed.{CInstr}
use double_jit_vm.Compressed.{compressed_arms}
use double_jit_vm.Compressed.Quadrants.{c_shift_arm, c_misc_alu_arm}
use double_jit_vm.Decode.Config.{Config, rv32, rv64}
use double_jit_vm.Instr.Operand.{Imm32, Shamt}
use double_jit_vm.Instr.Base32.{Rv32I}
use double_jit_vm.Instr.Base64.{Rv64I}
use double_jit_vm.Compressed.Quadrants.{x_rd, x_rs1}
use double_jit_vm.RoundTrip.Compressed.Key.{by_key, word, Reads, Decodes}

-- The six bits of a shift amount.
abbrev amount_bits : ℕ → ℕ
amount_bits w = bits_at w 2 5 + bits_at w 12 1 * 2 ^ 5

misc_alu-andi :
    (cfg : Config) (w : ℕ) → bits_at w 10 2 ≡ 2 → c_misc_alu_arm cfg w ≡ c_shift_arm cfg w
unfolding c_misc_alu_arm
misc_alu-andi cfg w h = ground (arith, misc_alu_key_lem w)

misc_alu-shift :
    (cfg : Config) (w : ℕ)
    → bits_at w 10 2 < 2
    → 0 < amount_bits w
    → c_misc_alu_arm cfg w ≡ c_shift_arm cfg w
unfolding c_misc_alu_arm
misc_alu-shift cfg w h p = ground (arith, misc_alu_key_lem w, shift_low_key_lem w)

-- `((bit >> 7) & 0x20) | ((bit >> 2) & 0x1f)` is the shift amount.
shift_amount :
    (w : ℕ) → bit_or (bit_and (w / 2 ^ 7) 0x20) (bit_and (w / 2 ^ 2) 0x1f) ≡ amount_bits w
shift_amount w = ground (
  arith,
  bit_and-field_mask 5 1 (w / 2 ^ 7),
  bit_and-low_mask 5 (w / 2 ^ 2),
  bit_or-fields_flip 5 (w / 2 ^ 7 / 2 ^ 5 % 2) (bits_at w 2 5),
)

shift_amount_parts :
    (w : ℕ)
    → bit_or (bit_and (w / 2 ^ 7) 0x20 % 2 ^ 8) (bit_and (w / 2 ^ 2) 0x1f % 2 ^ 8) ≡ amount_bits w
shift_amount_parts w = ground (
  arith,
  bit_and-field_mask 5 1 (w / 2 ^ 7),
  bit_and-low_mask 5 (w / 2 ^ 2),
  bit_or-fields_flip 5 (w / 2 ^ 7 / 2 ^ 5 % 2) (bits_at w 2 5),
)

c_shift_arm-srli :
    (cfg : Config) (w : ℕ)
    → bits_at w 10 2 ≡ 0
    → 0 < amount_bits w
    → c_shift_arm cfg w
      ≡ some (
          rv64 cfg (
            Rv64I.srli
              (x_rd (bits_at w 7 3 + 8))
              (x_rs1 (bits_at w 7 3 + 8))
              (Shamt.amount (amount_bits w))))
unfolding c_shift_arm
c_shift_arm-srli cfg w h p =
    ground (arith, c_r_lem w 7, c_uimmediate_lem w, shift_key_lem w, shift_amount w)

c_shift_arm-srai :
    (cfg : Config) (w : ℕ)
    → bits_at w 10 2 ≡ 1
    → 0 < amount_bits w
    → c_shift_arm cfg w
      ≡ some (
          rv64 cfg (
            Rv64I.srai
              (x_rd (bits_at w 7 3 + 8))
              (x_rs1 (bits_at w 7 3 + 8))
              (Shamt.amount (amount_bits w))))
unfolding c_shift_arm
c_shift_arm-srai cfg w h p =
    ground (arith, c_r_lem w 7, c_uimmediate_lem w, shift_key_lem w, shift_amount_parts w)

c_shift_arm-andi :
    (cfg : Config) (w : ℕ)
    → bits_at w 10 2 ≡ 2
    → c_shift_arm cfg w
      ≡ some (
          rv32 cfg (
            Rv32I.andi
              (x_rd (bits_at w 7 3 + 8))
              (x_rs1 (bits_at w 7 3 + 8))
              (Imm32.imm (sign_extend 6 (amount_bits w)))))
unfolding c_shift_arm
c_shift_arm-andi cfg w h = ground (arith, c_r_lem w 7, c_immediate_lem w, shift_key_lem w)

pub Decodes-sub : (d b : ℕ) → (cfg : Config) → Decodes cfg (CInstr.sub d b)
unfolding compressed_arms c_misc_alu_arm
Decodes-sub d b cfg there rest h =
    let w = word (CInstr.sub d b) rest in
    rw (by_key cfg w 0x8001 (omega arith))
      (ground (arith, c_r_lem w 2, c_r_lem w 7, misc_alu_key_lem w))

pub Decodes-xor : (d b : ℕ) → (cfg : Config) → Decodes cfg (CInstr.xor d b)
unfolding compressed_arms c_misc_alu_arm
Decodes-xor d b cfg there rest h =
    let w = word (CInstr.xor d b) rest in
    rw (by_key cfg w 0x8001 (omega arith))
      (ground (arith, c_r_lem w 2, c_r_lem w 7, misc_alu_key_lem w))

pub Decodes-or : (d b : ℕ) → (cfg : Config) → Decodes cfg (CInstr.or d b)
unfolding compressed_arms c_misc_alu_arm
Decodes-or d b cfg there rest h =
    let w = word (CInstr.or d b) rest in
    rw (by_key cfg w 0x8001 (omega arith))
      (ground (arith, c_r_lem w 2, c_r_lem w 7, misc_alu_key_lem w))

pub Decodes-and : (d b : ℕ) → (cfg : Config) → Decodes cfg (CInstr.and d b)
unfolding compressed_arms c_misc_alu_arm
Decodes-and d b cfg there rest h =
    let w = word (CInstr.and d b) rest in
    rw (by_key cfg w 0x8001 (omega arith))
      (ground (arith, c_r_lem w 2, c_r_lem w 7, misc_alu_key_lem w))

pub Decodes-subw : (d b : ℕ) → (cfg : Config) → Decodes cfg (CInstr.subw d b)
unfolding compressed_arms c_misc_alu_arm
Decodes-subw d b cfg there rest h =
    let w = word (CInstr.subw d b) rest in
    rw (by_key cfg w 0x8001 (omega arith))
      (ground (arith, c_r_lem w 2, c_r_lem w 7, misc_alu_key_lem w))

pub Decodes-addw : (d b : ℕ) → (cfg : Config) → Decodes cfg (CInstr.addw d b)
unfolding compressed_arms c_misc_alu_arm
Decodes-addw d b cfg there rest h =
    let w = word (CInstr.addw d b) rest in
    rw (by_key cfg w 0x8001 (omega arith))
      (ground (arith, c_r_lem w 2, c_r_lem w 7, misc_alu_key_lem w))

pub Reads-srli : (d i : ℕ) → (cfg : Config) → Reads cfg (CInstr.srli d i)
unfolding compressed_arms
Reads-srli d i cfg rest h =
    let w = word (CInstr.srli d i) rest in
    let register : bits_at w 7 3 + 8 ≡ d = omega arith in
    let amount : bits_at w 2 5 + bits_at w 12 1 * 2 ^ 5 ≡ i = omega arith in
    rw (
      by_key cfg w 0x8001 (omega arith),
      misc_alu-shift cfg w (omega arith) (omega arith),
      c_shift_arm-srli cfg w (omega arith) (omega arith),
      register,
      amount,
    )

pub Reads-srai : (d i : ℕ) → (cfg : Config) → Reads cfg (CInstr.srai d i)
unfolding compressed_arms
Reads-srai d i cfg rest h =
    let w = word (CInstr.srai d i) rest in
    let register : bits_at w 7 3 + 8 ≡ d = omega arith in
    let amount : bits_at w 2 5 + bits_at w 12 1 * 2 ^ 5 ≡ i = omega arith in
    rw (
      by_key cfg w 0x8001 (omega arith),
      misc_alu-shift cfg w (omega arith) (omega arith),
      c_shift_arm-srai cfg w (omega arith) (omega arith),
      register,
      amount,
    )

pub Decodes-andi : (d i : ℕ) → (cfg : Config) → Decodes cfg (CInstr.andi d i)
unfolding compressed_arms
Decodes-andi d i cfg there rest h =
    let w = word (CInstr.andi d i) rest in
    let register : bits_at w 7 3 + 8 ≡ d = omega arith in
    let amount : bits_at w 2 5 + bits_at w 12 1 * 2 ^ 5 ≡ i = omega arith in
    rw (
      by_key cfg w 0x8001 (omega arith),
      misc_alu-andi cfg w (omega arith),
      c_shift_arm-andi cfg w (omega arith),
      register,
      amount,
    )
