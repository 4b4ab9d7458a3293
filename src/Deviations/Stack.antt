-- ===== src/Deviations/Stack.antt =====
-- `C.BNEZ` and `C.SDSP`, and on 32 bits the compressed shifts by an immediate.
use double_jit_vm.Prelude.{ℕ, ◌+◌, ◌*◌, ◌%◌, ◌^◌, ◌<◌, ◌≡◌, some, refl, arith}
use double_jit_vm.Prelude.Outcome.{ok}
use double_jit_vm.Word.{sign_extend}
use double_jit_vm.Instr.{Instr}
use double_jit_vm.Instr.Operand.{Imm32, Shamt}
use double_jit_vm.Instr.Base32.{Rv32I}
use double_jit_vm.Instr.Base64.{Rv64I}
use double_jit_vm.Field.Compressed.Laws.{
  c_r_lem, c_b_immediate_lem, c_rs2_lem, c_swsp_uimmediate_lem,
}
use double_jit_vm.Isa.Compressed.{CInstr, IsAllowed, encode}
use double_jit_vm.Isa.Halves.{field}
use double_jit_vm.Compressed.{compressed_arms, try_from_compressed}
use double_jit_vm.Compressed.Quadrants.{x_rd, x_rs1, x_rs2, c_sdsp_arm}
use double_jit_vm.Decode.Config.{Config, rv32, rv64}
use double_jit_vm.Decode.Parse.{parse_word}
use double_jit_vm.RoundTrip.Compressed.Key.{by_key}
use double_jit_vm.RoundTrip.Compressed.Alu.{Reads-srli, Reads-srai}
use double_jit_vm.RoundTrip.Compressed.Quadrant2.{Reads-slli}

-- The register and the immediate that each has.
pub data Slip : Type 0 where
  bnez sdsp slli srli srai : ℕ → ℕ → Slip

-- The manuals' layouts. `C.BNEZ` differs from `C.BEQZ` in `funct3`: 7 for 6. In `C.SDSP` the bits 3
-- to 5 of the offset are at 10, the bits 6 to 8 at 7.
abbrev pub slip_half : Slip → ℕ
slip_half (Slip.bnez a i) = encode (CInstr.beqz a i) + 2 ^ 13
slip_half (Slip.sdsp b i) = 2 + b * 2 ^ 2 + field 6 3 i 7 + field 3 3 i 10 + 7 * 2 ^ 13
slip_half (Slip.slli d i) = encode (CInstr.slli d i)
slip_half (Slip.srli d i) = encode (CInstr.srli d i)
slip_half (Slip.srai d i) = encode (CInstr.srai d i)

-- The widths, 0 for 32 bits and 1 for 64 bits, and the operands that the manuals allow.
abbrev pub IsSlip : ℕ → Slip → Type 0
IsSlip width (Slip.bnez a i) = IsAllowed (CInstr.beqz a i)
IsSlip width (Slip.sdsp b i) = (width ≡ 1) × (b < 32) × (i < 2 ^ 9) × (i % 8 ≡ 0)
IsSlip width (Slip.slli d i) = (width ≡ 0) × (i < 32) × IsAllowed (CInstr.slli d i)
IsSlip width (Slip.srli d i) = (width ≡ 0) × (i < 32) × IsAllowed (CInstr.srli d i)
IsSlip width (Slip.srai d i) = (width ≡ 0) × (i < 32) × IsAllowed (CInstr.srai d i)

-- What the decoder returns: for `C.BNEZ` the branch on equality, as for `C.BEQZ`; for `C.SDSP` the
-- store of a word, at an offset whose bit 2 is bit 8 of `i`, as `C.SWSP` lays it out; for the shifts
-- those of RV64I.
abbrev pub slip_decoded : Config → Slip → Instr
slip_decoded cfg (Slip.bnez a i) =
    rv32 cfg (Rv32I.beq (x_rs1 a) (x_rs2 0) (Imm32.imm (sign_extend 9 i)))
slip_decoded cfg (Slip.sdsp b i) =
    rv32 cfg
      (Rv32I.sw (x_rs1 2) (x_rs2 b) (Imm32.imm (field 8 1 i 2 + field 3 3 i 3 + field 6 2 i 6)))
slip_decoded cfg (Slip.slli d i) = rv64 cfg (Rv64I.slli (x_rd d) (x_rs1 d) (Shamt.amount i))
slip_decoded cfg (Slip.srli d i) = rv64 cfg (Rv64I.srli (x_rd d) (x_rs1 d) (Shamt.amount i))
slip_decoded cfg (Slip.srai d i) = rv64 cfg (Rv64I.srai (x_rd d) (x_rs1 d) (Shamt.amount i))

try_from_compressed-slip :
    (cfg : Config)
    → (s : Slip) → (rest : ℕ) → IsSlip cfg.bit_length s
    → try_from_compressed cfg (slip_half s + rest * 2 ^ 16) ≡ ok (some (slip_decoded cfg s))
unfolding compressed_arms c_sdsp_arm
try_from_compressed-slip cfg (Slip.bnez a i) rest h =
    let w = slip_half (Slip.bnez a i) + rest * 2 ^ 16 in
    rw (by_key cfg w 0xE001 (omega arith)) (ground (arith, c_r_lem w 7, c_b_immediate_lem w))
try_from_compressed-slip cfg (Slip.sdsp b i) rest h =
    let w = slip_half (Slip.sdsp b i) + rest * 2 ^ 16 in
    rw (by_key cfg w 0xE002 (omega arith)) (ground (arith, c_rs2_lem w, c_swsp_uimmediate_lem w))
try_from_compressed-slip cfg (Slip.slli d i) rest h = Reads-slli d i cfg rest h.2
try_from_compressed-slip cfg (Slip.srli d i) rest h = Reads-srli d i cfg rest h.2
try_from_compressed-slip cfg (Slip.srai d i) rest h = Reads-srai d i cfg rest h.2

-- With operands that the manuals allow, and whatever half word `rest` behind them, C.BNEZ decodes to
-- the branch on equality with x0, as C.BEQZ does; on 64 bits C.SDSP decodes to the store of a word,
-- and at the offset that C.SWSP lays out so; on 32 bits C.SLLI, C.SRLI and C.SRAI decode to the
-- shifts of RV64I.
pub parse_word-slip :
    (cfg : Config)
    → (s : Slip) → (rest : ℕ) → IsSlip cfg.bit_length s
    → parse_word cfg (slip_half s + rest * 2 ^ 16) ≡ ok (slip_decoded cfg s)
unfolding parse_word
parse_word-slip cfg s rest h = rw (try_from_compressed-slip cfg s rest h) refl
