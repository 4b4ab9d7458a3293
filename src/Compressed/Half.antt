-- ===== src/Compressed/Half.antt =====
-- `try_from_compressed` of src/frontend/instruction.rs on the low half of its word: the fields, the keys
-- and the arms.
use Prim.Native.Nat.{bit_and}
use double_jit_vm.Prelude.{ℕ, ◌%◌, ◌^◌, ◌≡◌, ◌/◌, refl, arith}
use double_jit_vm.Bits.{bit_and-low_mask, bit_and-field_mask}
use double_jit_vm.Word.{shr32}
use double_jit_vm.Field.{rd}
use double_jit_vm.Field.Laws.{rd_lem}
use double_jit_vm.Field.Compressed.{
  c_rs2, c_r, c_immediate, c_uimmediate, c_j_immediate, c_fld_uimmediate, c_sw_uimmediate,
  c_lwsp_uimmediate, c_fldsp_uimmediate, c_swsp_uimmediate, c_b_immediate,
}
use double_jit_vm.Field.Compressed.Laws.{
  c_r_lem, c_rs2_lem, c_immediate_lem, c_uimmediate_lem, c_j_immediate_lem, c_fld_uimmediate_lem,
  c_sw_uimmediate_lem, c_lwsp_uimmediate_lem, c_fldsp_uimmediate_lem, c_swsp_uimmediate_lem,
  c_b_immediate_lem, key_lem, misc_alu_key_lem, shift_key_lem, shift_low_key_lem, jr_key_lem,
  nzuimm_lem, addi16sp_immediate_lem,
}
use double_jit_vm.Compressed.{compressed_arms, try_from_compressed}
use double_jit_vm.Compressed.Quadrants.{
  c_ld_arm, c_sd_arm, c_addi4spn_arm, c_addi_arm, c_jal_addiw_arm, c_li_arm, c_addi16sp_lui_arm,
  c_shift_arm, c_misc_alu_arm, c_slli_arm, c_lwsp_arm, c_ldsp_arm, c_jr_mv_add_arm, c_sdsp_arm,
}
use double_jit_vm.Decode.Config.{Config}

abbrev pub low_half : ℕ → ℕ
low_half w = w % 2 ^ 16

module _ (w : ℕ) where
  rd-half : rd (low_half w) ≡ rd w
  rd-half = omega (arith, rd_lem w, rd_lem (low_half w))

  c_rs2-half : c_rs2 (low_half w) ≡ c_rs2 w
  c_rs2-half = omega (arith, c_rs2_lem w, c_rs2_lem (low_half w))

  -- The two registers of three bits.
  c_r_low-half : c_r (low_half w) 2 ≡ c_r w 2
  c_r_low-half = omega (arith, c_r_lem w 2, c_r_lem (low_half w) 2)

  c_r_high-half : c_r (low_half w) 7 ≡ c_r w 7
  c_r_high-half = omega (arith, c_r_lem w 7, c_r_lem (low_half w) 7)

  c_immediate-half : c_immediate (low_half w) ≡ c_immediate w
  c_immediate-half = ground (arith, c_immediate_lem w, c_immediate_lem (low_half w))

  c_uimmediate-half : c_uimmediate (low_half w) ≡ c_uimmediate w
  c_uimmediate-half = omega (arith, c_uimmediate_lem w, c_uimmediate_lem (low_half w))

  c_j_immediate-half : c_j_immediate (low_half w) ≡ c_j_immediate w
  c_j_immediate-half = ground (arith, c_j_immediate_lem w, c_j_immediate_lem (low_half w))

  c_b_immediate-half : c_b_immediate (low_half w) ≡ c_b_immediate w
  c_b_immediate-half = ground (arith, c_b_immediate_lem w, c_b_immediate_lem (low_half w))

  c_fld_uimmediate-half : c_fld_uimmediate (low_half w) ≡ c_fld_uimmediate w
  c_fld_uimmediate-half = omega (arith, c_fld_uimmediate_lem w, c_fld_uimmediate_lem (low_half w))

  c_sw_uimmediate-half : c_sw_uimmediate (low_half w) ≡ c_sw_uimmediate w
  c_sw_uimmediate-half = omega (arith, c_sw_uimmediate_lem w, c_sw_uimmediate_lem (low_half w))

  c_lwsp_uimmediate-half : c_lwsp_uimmediate (low_half w) ≡ c_lwsp_uimmediate w
  c_lwsp_uimmediate-half =
      omega (arith, c_lwsp_uimmediate_lem w, c_lwsp_uimmediate_lem (low_half w))

  c_fldsp_uimmediate-half : c_fldsp_uimmediate (low_half w) ≡ c_fldsp_uimmediate w
  c_fldsp_uimmediate-half =
      omega (arith, c_fldsp_uimmediate_lem w, c_fldsp_uimmediate_lem (low_half w))

  c_swsp_uimmediate-half : c_swsp_uimmediate (low_half w) ≡ c_swsp_uimmediate w
  c_swsp_uimmediate-half =
      omega (arith, c_swsp_uimmediate_lem w, c_swsp_uimmediate_lem (low_half w))

  -- The keys by which the decoder chooses an arm.
  key-half : bit_and (low_half w) 0b111_00000000000_11 ≡ bit_and w 0b111_00000000000_11
  key-half = omega (arith, key_lem w, key_lem (low_half w))

  misc_alu_key-half : bit_and (low_half w) 0b1_11_000_11000_00 ≡ bit_and w 0b1_11_000_11000_00
  misc_alu_key-half = omega (arith, misc_alu_key_lem w, misc_alu_key_lem (low_half w))

  shift_key-half : bit_and (low_half w) 0b11_000_00000_00 ≡ bit_and w 0b11_000_00000_00
  shift_key-half = omega (arith, shift_key_lem w, shift_key_lem (low_half w))

  shift_low_key-half : bit_and (low_half w) 0b111_00 ≡ bit_and w 0b111_00
  shift_low_key-half = omega (arith, shift_low_key_lem w, shift_low_key_lem (low_half w))

  jr_key-half : bit_and (low_half w) 0b1_00000_00000_00 ≡ bit_and w 0b1_00000_00000_00
  jr_key-half = omega (arith, jr_key_lem w, jr_key_lem (low_half w))

  -- The two parts of a shift amount.
  amount_high-half : bit_and (shr32 (low_half w) 7) 0x20 ≡ bit_and (shr32 w 7) 0x20
  amount_high-half =
      omega (arith, bit_and-field_mask 5 1 (w / 2 ^ 7), bit_and-field_mask 5 1 (low_half w / 2 ^ 7))

  amount_low-half : bit_and (shr32 (low_half w) 2) 0x1f ≡ bit_and (shr32 w 2) 0x1f
  amount_low-half =
      omega (arith, bit_and-low_mask 5 (w / 2 ^ 2), bit_and-low_mask 5 (low_half w / 2 ^ 2))

  -- The arms whose immediates are written out.
  c_addi4spn_arm-half : (cfg : Config) → c_addi4spn_arm cfg (low_half w) ≡ c_addi4spn_arm cfg w
  unfolding c_addi4spn_arm
  c_addi4spn_arm-half cfg = rw (c_r_low-half, nzuimm_lem w, nzuimm_lem (low_half w)) (ground arith)

  c_addi16sp_lui_arm-half :
      (cfg : Config) → c_addi16sp_lui_arm cfg (low_half w) ≡ c_addi16sp_lui_arm cfg w
  unfolding c_addi16sp_lui_arm
  c_addi16sp_lui_arm-half cfg =
      rw (rd-half, c_immediate-half, addi16sp_immediate_lem w, addi16sp_immediate_lem (low_half w))
        (ground arith)

  c_shift_arm-half : (cfg : Config) → c_shift_arm cfg (low_half w) ≡ c_shift_arm cfg w
  unfolding c_shift_arm
  c_shift_arm-half cfg =
      rw
        (
          c_r_high-half, c_uimmediate-half, c_immediate-half, shift_key-half, amount_high-half,
          amount_low-half,
        )
        refl

  c_misc_alu_arm-half : (cfg : Config) → c_misc_alu_arm cfg (low_half w) ≡ c_misc_alu_arm cfg w
  unfolding c_misc_alu_arm
  c_misc_alu_arm-half cfg =
      rw (c_r_high-half, c_r_low-half, misc_alu_key-half, shift_low_key-half, c_shift_arm-half cfg)
        refl

  c_jr_mv_add_arm-half : (cfg : Config) → c_jr_mv_add_arm cfg (low_half w) ≡ c_jr_mv_add_arm cfg w
  unfolding c_jr_mv_add_arm
  c_jr_mv_add_arm-half cfg = rw (rd-half, c_rs2-half, jr_key-half) refl

  compressed_arms-half :
      (cfg : Config) (key : ℕ) → compressed_arms cfg key (low_half w) ≡ compressed_arms cfg key w
  unfolding compressed_arms c_ld_arm c_sd_arm c_addi_arm c_jal_addiw_arm c_li_arm c_slli_arm
      c_lwsp_arm c_ldsp_arm c_sdsp_arm
  compressed_arms-half cfg key =
      rw
        (
          rd-half,
          c_rs2-half,
          c_r_low-half,
          c_r_high-half,
          c_immediate-half,
          c_uimmediate-half,
          c_j_immediate-half,
          c_b_immediate-half,
          c_fld_uimmediate-half,
          c_sw_uimmediate-half,
          c_lwsp_uimmediate-half,
          c_fldsp_uimmediate-half,
          c_swsp_uimmediate-half,
          c_addi4spn_arm-half cfg,
          c_addi16sp_lui_arm-half cfg,
          c_misc_alu_arm-half cfg,
          c_jr_mv_add_arm-half cfg,
        )
        refl

  pub try_from_compressed-half :
      (cfg : Config) → try_from_compressed cfg (low_half w) ≡ try_from_compressed cfg w
  unfolding try_from_compressed
  try_from_compressed-half cfg =
      rw (key-half, compressed_arms-half cfg (bit_and w 0b111_00000000000_11)) refl
