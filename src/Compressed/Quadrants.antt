-- ===== src/Compressed/Quadrants.antt =====
-- The arms of `try_from_compressed` in src/frontend/instruction.rs that are longer than one
-- expression, by quadrant. `none` is the `None` of the source: the word is no compressed instruction.
use Prim.Native.Nat.{bit_and, bit_or}
use double_jit_vm.Prelude.{ℕ, ◌%◌, ◌^◌, not, Option, none, some, ◌==◌, ◌&&◌, if◌then◌else◌}
use double_jit_vm.Prelude.Outcome.{Outcome, ok, panic, unreachable_code}
use double_jit_vm.Word.{shl32, shr32}
use double_jit_vm.Field.{slice, slice_back, rd}
use double_jit_vm.Field.Compressed.{
  c_rs2, c_r, c_immediate, c_uimmediate, c_j_immediate, c_fld_uimmediate, c_lwsp_uimmediate,
  c_fldsp_uimmediate, c_swsp_uimmediate,
}
use double_jit_vm.Instr.{Instr}
use double_jit_vm.Instr.Operand.{Xx, Reg, Rd, Rs1, Rs2, Shamt, Imm32}
use double_jit_vm.Instr.Base32.{Rv32I}
use double_jit_vm.Instr.Base64.{Rv64I, Rv128I}
use double_jit_vm.Decode.Config.{Config, rv32, rv64, rv128_rv128i}

-- `Rd(Reg::X(Xx::new(n)))` and its like.
abbrev pub x_rd : ℕ → Rd
x_rd n = Rd.reg (Reg.x (Xx.xx n))

abbrev pub x_rs1 : ℕ → Rs1
x_rs1 n = Rs1.reg (Reg.x (Xx.xx n))

abbrev pub x_rs2 : ℕ → Rs2
x_rs2 n = Rs2.reg (Reg.x (Xx.xx n))

module _ (cfg : Config) (bit_u32 : ℕ) where
  -- `BIT_LENGTH` chooses the type, and so the variant's enum.
  unfoldable pub c_ld_arm : Option Instr
  c_ld_arm =
      if cfg.bit_length == 1
      then some (
          rv64 cfg (
            Rv64I.ld (x_rd (c_r bit_u32 2)) (x_rs1 (c_r bit_u32 7))
              (Imm32.imm (c_fld_uimmediate bit_u32))))
      else if cfg.bit_length == 2
      then some (
          rv128_rv128i (
            Rv128I.ld (x_rd (c_r bit_u32 2)) (x_rs1 (c_r bit_u32 7))
              (Imm32.imm (c_fld_uimmediate bit_u32))))
      else none

  unfoldable pub c_sd_arm : Option Instr
  c_sd_arm =
      if cfg.bit_length == 1
      then some (
          rv64 cfg (
            Rv64I.sd (x_rs1 (c_r bit_u32 7)) (x_rs2 (c_r bit_u32 2))
              (Imm32.imm (c_fld_uimmediate bit_u32))))
      else if cfg.bit_length == 2
      then some (
          rv128_rv128i (
            Rv128I.sd (x_rs1 (c_r bit_u32 7)) (x_rs2 (c_r bit_u32 2))
              (Imm32.imm (c_fld_uimmediate bit_u32))))
      else none

  unfoldable pub c_addi4spn_arm : Option Instr
  c_addi4spn_arm =
      let nzuimm =
        bit_or (bit_or (bit_or (slice bit_u32 6 1 2) (slice bit_u32 5 1 3)) (slice bit_u32 11 2 4))
          (slice bit_u32 7 4 6) in
      if not (nzuimm == 0)
      then some (rv32 cfg (Rv32I.addi (x_rd (c_r bit_u32 2)) (x_rs1 2) (Imm32.imm nzuimm)))
      else none

  unfoldable pub c_addi_arm : Option Instr
  c_addi_arm =
      let nzimm = c_immediate bit_u32 in
      let d = rd bit_u32 in
      if not (d == 0)
      then (if not (nzimm == 0)
          then some (rv32 cfg (Rv32I.addi (x_rd d) (x_rs1 d) (Imm32.imm nzimm)))
          else some Instr.nop)
      else (if nzimm == 0 then some Instr.nop else some Instr.nop)

  unfoldable pub c_jal_addiw_arm : Option Instr
  c_jal_addiw_arm =
      if cfg.bit_length == 0
      then some (rv32 cfg (Rv32I.jal (x_rd 1) (Imm32.imm (c_j_immediate bit_u32))))
      else (let d = rd bit_u32 in
          if not (d == 0)
          then some (rv64 cfg (Rv64I.addiw (x_rd d) (x_rs1 d) (Imm32.imm (c_immediate bit_u32))))
          else none)

  unfoldable pub c_li_arm : Option Instr
  c_li_arm =
      let d = rd bit_u32 in
      if not (d == 0)
      then some (rv32 cfg (Rv32I.addi (x_rd d) (x_rs1 0) (Imm32.imm (c_immediate bit_u32))))
      else some Instr.nop

  unfoldable pub c_addi16sp_lui_arm : Option Instr
  c_addi16sp_lui_arm =
      let imm = shl32 (c_immediate bit_u32) 12 in
      let d = rd bit_u32 in
      if not (imm == 0)
      then (if d == 2
          then some (
              rv32 cfg (
                Rv32I.addi (x_rd 2) (x_rs1 2) (
                  Imm32.imm (
                    bit_or
                      (bit_or
                        (bit_or (bit_or (slice bit_u32 6 1 4) (slice bit_u32 2 1 5))
                          (slice bit_u32 5 1 6))
                        (slice bit_u32 3 2 7))
                      (slice_back bit_u32 12 1 9)))))
          else if not (d == 0)
          then some (rv32 cfg (Rv32I.lui (x_rd d) (Imm32.imm imm)))
          else some Instr.nop)
      else none

  -- `match (bit_u32 & 0b11_000_00000_00, uimm)`: shifts by a constant, and `C.ANDI`.
  unfoldable pub c_shift_arm : Option Instr
  c_shift_arm =
      let d = c_r bit_u32 7 in
      let uimm = c_uimmediate bit_u32 in
      let op = bit_and bit_u32 0b11_000_00000_00 in
      if op == 0b00_000_00000_00 && uimm == 0
      then none
      else if op == 0b00_000_00000_00
      then some (
          rv64 cfg (
            Rv64I.srli (x_rd d) (x_rs1 d) (
              Shamt.amount (
                bit_or (bit_and (shr32 bit_u32 7) 0x20) (bit_and (shr32 bit_u32 2) 0x1f) % 2 ^ 8))))
      else if op == 0b01_000_00000_00 && uimm == 0
      then none
      else if op == 0b01_000_00000_00
      then some (
          rv64 cfg (
            Rv64I.srai (x_rd d) (x_rs1 d) (
              Shamt.amount (
                bit_or (bit_and (shr32 bit_u32 7) 0x20 % 2 ^ 8)
                  (bit_and (shr32 bit_u32 2) 0x1f % 2 ^ 8)))))
      else if op == 0b10_000_00000_00
      then some (rv32 cfg (Rv32I.andi (x_rd d) (x_rs1 d) (Imm32.imm (c_immediate bit_u32))))
      else none

  unfoldable pub c_misc_alu_arm : Option Instr
  c_misc_alu_arm =
      let d = c_r bit_u32 7 in
      let s = c_r bit_u32 2 in
      let op = bit_and bit_u32 0b1_11_000_11000_00 in
      if op == 0b0_00_000_00000_00 && bit_and bit_u32 0b111_00 == 0
      then some Instr.nop
      else if op == 0b0_01_000_00000_00 && bit_and bit_u32 0b111_00 == 0
      then some Instr.nop
      else if op == 0b0_11_000_00000_00
      then some (rv32 cfg (Rv32I.sub (x_rd d) (x_rs1 d) (x_rs2 s)))
      else if op == 0b0_11_000_01000_00
      then some (rv32 cfg (Rv32I.xor (x_rd d) (x_rs1 d) (x_rs2 s)))
      else if op == 0b0_11_000_10000_00
      then some (rv32 cfg (Rv32I.or (x_rd d) (x_rs1 d) (x_rs2 s)))
      else if op == 0b0_11_000_11000_00
      then some (rv32 cfg (Rv32I.and (x_rd d) (x_rs1 d) (x_rs2 s)))
      else if op == 0b1_11_000_00000_00
      then some (rv64 cfg (Rv64I.subw (x_rd d) (x_rs1 d) (x_rs2 s)))
      else if op == 0b1_11_000_01000_00
      then some (rv64 cfg (Rv64I.addw (x_rd d) (x_rs1 d) (x_rs2 s)))
      else if op == 0b1_11_000_10000_00
      then none
      else if op == 0b1_11_000_11000_00
      then none
      else c_shift_arm

  unfoldable pub c_slli_arm : Option Instr
  c_slli_arm =
      let uimm = c_uimmediate bit_u32 in
      let d = rd bit_u32 in
      if not (d == 0) && not (uimm == 0)
      then some (rv64 cfg (Rv64I.slli (x_rd d) (x_rs1 d) (Shamt.amount (uimm % 2 ^ 8))))
      else some Instr.nop

  unfoldable pub c_lwsp_arm : Option Instr
  c_lwsp_arm =
      let d = rd bit_u32 in
      if not (d == 0)
      then some (rv32 cfg (Rv32I.lw (x_rd d) (x_rs1 2) (Imm32.imm (c_lwsp_uimmediate bit_u32))))
      else none

  unfoldable pub c_ldsp_arm : Option Instr
  c_ldsp_arm =
      if cfg.bit_length == 0
      then none
      else (let d = rd bit_u32 in
          if not (d == 0)
          then some
              (rv64 cfg (Rv64I.ld (x_rd d) (x_rs1 2) (Imm32.imm (c_fldsp_uimmediate bit_u32))))
          else none)

  -- `C.JR`, `C.MV`, `C.EBREAK`, `C.JALR` and `C.ADD`.
  unfoldable pub c_jr_mv_add_arm : Outcome (Option Instr)
  c_jr_mv_add_arm =
      let d = rd bit_u32 in
      let s = c_rs2 bit_u32 in
      let op = bit_and bit_u32 0b1_00000_00000_00 in
      if op == 0b0_00000_00000_00
      then ok (
          if s == 0
          then (if not (d == 0)
              then some (rv32 cfg (Rv32I.jalr (x_rd 0) (x_rs1 d) (Imm32.imm 0)))
              else none)
          else if not (d == 0)
          then some (rv32 cfg (Rv32I.add (x_rd d) (x_rs1 0) (x_rs2 s)))
          else some Instr.nop)
      else if op == 0b1_00000_00000_00
      then ok (
          if d == 0 && s == 0
          then some (rv32 cfg Rv32I.ebreak)
          else if s == 0
          then some (rv32 cfg (Rv32I.jalr (x_rd 1) (x_rs1 d) (Imm32.imm 0)))
          else if not (d == 0)
          then some (rv32 cfg (Rv32I.add (x_rd d) (x_rs1 d) (x_rs2 s)))
          else some Instr.nop)
      else panic unreachable_code

  -- `C.SDSP`: the source builds a word store with the word offset.
  unfoldable pub c_sdsp_arm : Option Instr
  c_sdsp_arm =
      if cfg.bit_length == 0
      then none
      else some (
          rv32 cfg
            (Rv32I.sw (x_rs1 2) (x_rs2 (c_rs2 bit_u32)) (Imm32.imm (c_swsp_uimmediate bit_u32))))
