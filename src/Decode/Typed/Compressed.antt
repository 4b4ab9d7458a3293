-- ===== src/Decode/Typed/Compressed.antt =====
-- The compressed decoder of src/frontend/instruction.rs finds typed instructions only.
use Prim.Native.Nat.{bit_and, bit_or}
use double_jit_vm.Prelude.{
  ℕ, ◌%◌, ◌^◌, ◌<◌, Bool, true, false, Option, some, none, if◌then◌else◌, arith,
}
use double_jit_vm.Prelude.Outcome.{ok, panic, unreachable_code}
use double_jit_vm.Word.{shl32, shr32}
use double_jit_vm.Instr.{Instr}
use double_jit_vm.Instr.Operand.{Shamt, Imm32}
use double_jit_vm.Instr.Base64.{Rv128I}
use double_jit_vm.Compressed.{compressed_arms, try_from_compressed}
use double_jit_vm.Compressed.Quadrants.{
  x_rd, x_rs1, x_rs2, c_ld_arm, c_sd_arm, c_addi4spn_arm, c_addi_arm, c_jal_addiw_arm, c_li_arm,
  c_addi16sp_lui_arm, c_shift_arm, c_misc_alu_arm, c_slli_arm, c_lwsp_arm, c_ldsp_arm,
  c_jr_mv_add_arm, c_sdsp_arm,
}
use double_jit_vm.Decode.Config.{Config, rv128_rv128i}
use double_jit_vm.Decode.Typed.{IsTyped, Returns, Finds, either_arm, rv32-IsTyped, rv64-IsTyped}
use double_jit_vm.Decode.Typed.Operands.{
  File, IsIn, RdIsIn, Rs1IsIn, Rs2IsIn, ShamtFits, ImmFits, RegTyped, UpperTyped, ImmTyped,
  StoreTyped, ShiftTyped,
}
use double_jit_vm.Decode.Typed.Integer.{IsRv32I, IsRv64I, IsRv128I}
use double_jit_vm.Decode.Typed.Fields.{
  bit_or-fits, slice-fits, slice_back-fits, c_immediate-fits, c_j_immediate-fits,
  c_b_immediate-fits, c_fld_uimmediate-fits, c_sw_uimmediate-fits, c_lwsp_uimmediate-fits,
  c_fldsp_uimmediate-fits, c_swsp_uimmediate-fits, rd-below, c_rs2-below, c_r-below,
  c_uimmediate-below, high_part-below, low_part-below,
}

-- The forms over registers that are given by their numbers.
module _ (d a : ℕ) (d_below : d < 32) (a_below : a < 32) where
  reg_form : (b : ℕ) → b < 32 → RegTyped File.integer File.integer (x_rd d) (x_rs1 a) (x_rs2 b)
  unfolding RegTyped RdIsIn Rs1IsIn Rs2IsIn IsIn
  reg_form b h = (d_below, a_below, h)

  shift_form : (n : ℕ) → n < 64 → ShiftTyped (x_rd d) (x_rs1 a) (Shamt.amount n)
  unfolding ShiftTyped RdIsIn Rs1IsIn IsIn ShamtFits
  shift_form n h = (d_below, a_below, h)

  imm_form :
      (high_bit low_bit : ℕ) (n : ℕ)
      → n < 2 ^ 32
      → ImmTyped {high_bit = high_bit} {low_bit = low_bit} (x_rd d) (x_rs1 a) (Imm32.imm n)
  unfolding ImmTyped RdIsIn Rs1IsIn IsIn ImmFits
  imm_form high_bit low_bit n h = (d_below, a_below, h)

  store_form :
      (high_bit low_bit : ℕ) (n : ℕ)
      → n < 2 ^ 32
      → StoreTyped {high_bit = high_bit} {low_bit = low_bit} (x_rs1 d) (x_rs2 a) (Imm32.imm n)
  unfolding StoreTyped Rs1IsIn Rs2IsIn IsIn ImmFits
  store_form high_bit low_bit n h = (d_below, a_below, h)

upper_form :
    (high_bit low_bit : ℕ) (d n : ℕ)
    → d < 32
    → n < 2 ^ 32
    → UpperTyped {high_bit = high_bit} {low_bit = low_bit} (x_rd d) (Imm32.imm n)
unfolding UpperTyped RdIsIn IsIn ImmFits
upper_form high_bit low_bit d n h g = (h, g)

zero_below : 0 < 32
zero_below = omega arith

one_below : 1 < 32
one_below = omega arith

two_below : 2 < 32
two_below = omega arith

zero_fits : 0 < 2 ^ 32
zero_fits = omega arith

shl32-fits : (n s : ℕ) → shl32 n s < 2 ^ 32
shl32-fits n s = omega arith

srli_amount : (w : ℕ) → bit_or (bit_and (shr32 w 7) 0x20) (bit_and (shr32 w 2) 0x1f) % 2 ^ 8 < 64
srli_amount w =
    let joined =
      bit_or-fits 6 (bit_and (shr32 w 7) 0x20) (bit_and (shr32 w 2) 0x1f)
        (high_part-below (shr32 w 7)) (low_part-below (shr32 w 2)) in
    omega arith

srai_amount :
    (w : ℕ) → bit_or (bit_and (shr32 w 7) 0x20 % 2 ^ 8) (bit_and (shr32 w 2) 0x1f % 2 ^ 8) < 64
srai_amount w =
    let high = high_part-below (shr32 w 7) in
    let low = low_part-below (shr32 w 2) in
    bit_or-fits 6 (bit_and (shr32 w 7) 0x20 % 2 ^ 8) (bit_and (shr32 w 2) 0x1f % 2 ^ 8)
      (omega arith) (omega arith)

rv128-IsTyped : (i : Rv128I) → IsRv128I i → IsTyped (rv128_rv128i i)
unfolding rv128_rv128i IsTyped
rv128-IsTyped i h = h

nop-IsTyped : IsTyped Instr.nop
unfolding IsTyped
nop-IsTyped = tt

-- The branches of an arm that is an option, and of one that may panic.
some-Finds : (i : Instr) → IsTyped i → Finds IsTyped (some i)
unfolding Finds
some-Finds i h = h

nothing-Finds : Finds IsTyped none
unfolding Finds
nothing-Finds = tt

ok-Returns : (found : Option Instr) → Finds IsTyped found → Returns (Finds IsTyped) (ok found)
unfolding Returns
ok-Returns found h = h

panic-Returns : Returns (Finds IsTyped) (panic unreachable_code)
unfolding Returns
panic-Returns = tt

either_option :
    (test : Bool) (x y : Option Instr)
    → Finds IsTyped x
    → Finds IsTyped y
    → Finds IsTyped (if test then x else y)
either_option true x y hx hy = hx
either_option false x y hx hy = hy

ruleset forms = (
  either_arm, either_option, ok-Returns, panic-Returns, some-Finds, nothing-Finds, rv32-IsTyped,
  rv64-IsTyped, rv128-IsTyped, nop-IsTyped, reg_form, shift_form, imm_form, store_form, upper_form,
  zero_below, one_below, two_below, zero_fits, shl32-fits, srli_amount, srai_amount, bit_or-fits,
  slice-fits, slice_back-fits, c_immediate-fits, c_j_immediate-fits, c_b_immediate-fits,
  c_fld_uimmediate-fits, c_sw_uimmediate-fits, c_lwsp_uimmediate-fits, c_fldsp_uimmediate-fits,
  c_swsp_uimmediate-fits, rd-below, c_rs2-below, c_r-below, c_uimmediate-below,
)

c_ld_arm-Finds : (cfg : Config) (w : ℕ) → Finds IsTyped (c_ld_arm cfg w)
unfolding c_ld_arm IsRv32I IsRv64I IsRv128I
c_ld_arm-Finds cfg w = search forms depth 40 fits 20000

c_sd_arm-Finds : (cfg : Config) (w : ℕ) → Finds IsTyped (c_sd_arm cfg w)
unfolding c_sd_arm IsRv32I IsRv64I IsRv128I
c_sd_arm-Finds cfg w = search forms depth 40 fits 20000

c_addi4spn_arm-Finds : (cfg : Config) (w : ℕ) → Finds IsTyped (c_addi4spn_arm cfg w)
unfolding c_addi4spn_arm IsRv32I IsRv64I IsRv128I
c_addi4spn_arm-Finds cfg w = search forms depth 40 fits 20000

c_addi_arm-Finds : (cfg : Config) (w : ℕ) → Finds IsTyped (c_addi_arm cfg w)
unfolding c_addi_arm IsRv32I IsRv64I IsRv128I
c_addi_arm-Finds cfg w = search forms depth 40 fits 20000

c_jal_addiw_arm-Finds : (cfg : Config) (w : ℕ) → Finds IsTyped (c_jal_addiw_arm cfg w)
unfolding c_jal_addiw_arm IsRv32I IsRv64I IsRv128I
c_jal_addiw_arm-Finds cfg w = search forms depth 40 fits 20000

c_li_arm-Finds : (cfg : Config) (w : ℕ) → Finds IsTyped (c_li_arm cfg w)
unfolding c_li_arm IsRv32I IsRv64I IsRv128I
c_li_arm-Finds cfg w = search forms depth 40 fits 20000

c_addi16sp_lui_arm-Finds : (cfg : Config) (w : ℕ) → Finds IsTyped (c_addi16sp_lui_arm cfg w)
unfolding c_addi16sp_lui_arm IsRv32I IsRv64I IsRv128I
c_addi16sp_lui_arm-Finds cfg w = search forms depth 40 fits 20000

c_shift_arm-Finds : (cfg : Config) (w : ℕ) → Finds IsTyped (c_shift_arm cfg w)
unfolding c_shift_arm IsRv32I IsRv64I IsRv128I
c_shift_arm-Finds cfg w = search forms depth 40 fits 20000

c_slli_arm-Finds : (cfg : Config) (w : ℕ) → Finds IsTyped (c_slli_arm cfg w)
unfolding c_slli_arm IsRv32I IsRv64I IsRv128I
c_slli_arm-Finds cfg w = search forms depth 40 fits 20000

c_lwsp_arm-Finds : (cfg : Config) (w : ℕ) → Finds IsTyped (c_lwsp_arm cfg w)
unfolding c_lwsp_arm IsRv32I IsRv64I IsRv128I
c_lwsp_arm-Finds cfg w = search forms depth 40 fits 20000

c_ldsp_arm-Finds : (cfg : Config) (w : ℕ) → Finds IsTyped (c_ldsp_arm cfg w)
unfolding c_ldsp_arm IsRv32I IsRv64I IsRv128I
c_ldsp_arm-Finds cfg w = search forms depth 40 fits 20000

c_sdsp_arm-Finds : (cfg : Config) (w : ℕ) → Finds IsTyped (c_sdsp_arm cfg w)
unfolding c_sdsp_arm IsRv32I IsRv64I IsRv128I
c_sdsp_arm-Finds cfg w = search forms depth 40 fits 20000

c_misc_alu_arm-Finds : (cfg : Config) (w : ℕ) → Finds IsTyped (c_misc_alu_arm cfg w)
unfolding c_misc_alu_arm IsRv32I IsRv64I IsRv128I
c_misc_alu_arm-Finds cfg w = search (forms, c_shift_arm-Finds) depth 40 fits 20000

c_jr_mv_add_arm-Returns : (cfg : Config) (w : ℕ) → Returns (Finds IsTyped) (c_jr_mv_add_arm cfg w)
unfolding c_jr_mv_add_arm IsRv32I IsRv64I IsRv128I
c_jr_mv_add_arm-Returns cfg w = search forms depth 40 fits 20000

compressed_arms-Returns :
    (cfg : Config) (key w : ℕ) → Returns (Finds IsTyped) (compressed_arms cfg key w)
unfolding compressed_arms IsRv32I IsRv64I IsRv128I
compressed_arms-Returns cfg key w =
    search
      (
        forms, c_misc_alu_arm-Finds, c_jr_mv_add_arm-Returns, c_ld_arm-Finds, c_sd_arm-Finds,
        c_addi4spn_arm-Finds, c_addi_arm-Finds, c_jal_addiw_arm-Finds, c_li_arm-Finds,
        c_addi16sp_lui_arm-Finds, c_slli_arm-Finds, c_lwsp_arm-Finds, c_ldsp_arm-Finds,
        c_sdsp_arm-Finds,
      )
      depth 60 fits 20000

pub try_from_compressed-Returns :
    (cfg : Config) (w : ℕ) → Returns (Finds IsTyped) (try_from_compressed cfg w)
unfolding try_from_compressed
try_from_compressed-Returns cfg w = compressed_arms-Returns cfg _ w
