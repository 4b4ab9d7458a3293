-- ===== src/Tests/Typed.antt =====
-- The theorems on all words of the decoder at concrete inputs.
use double_jit_vm.Prelude.{
  ℕ, ◌%◌, ◌^◌, ◌+◌, ◌*◌, ◌≡◌, ◌==◌, refl, List, [], ◌∷◌, true, false, if◌then◌else◌, arith,
}
use double_jit_vm.Prelude.Outcome.{ok, panic, ◌>>=◌, unwrap, unwrap_none}
use double_jit_vm.Isa.Words.{i_word}
use double_jit_vm.Isa.RegOps.{RegOp, reg_instr}
use double_jit_vm.Isa.BitOps.{BitOp, bit_code, bit_decoded}
use double_jit_vm.Compressed.{try_from_compressed}
use double_jit_vm.Compressed.Quadrants.{x_rd, x_rs1, x_rs2}
use double_jit_vm.Decode.Config.{Config}
use double_jit_vm.Decode.Parse.{le_word, parse_word, parse}
use double_jit_vm.Decode.Typed.{IsTyped}
use double_jit_vm.Decode.Typed.Parse.{parse-IsTyped}
use double_jit_vm.Decode.Unknown.{is_opcode, parse_word-unknown}
use double_jit_vm.RoundTrip.Reg.{parse_word-r_word}
use double_jit_vm.Deviations.BitImm.{parse_word-bit_word}

abbrev embedded : Config
embedded = record { bit_length = 1; is_e = true }

-- `add x1, x2, x3`
abbrev add_bytes : List ℕ
add_bytes = 0xb3 ∷ 0x00 ∷ 0x31 ∷ 0x00 ∷ []

parse-add_bytes :
    parse embedded add_bytes ≡ ok (reg_instr embedded RegOp.add (x_rd 1) (x_rs1 2) (x_rs2 3))
unfolding parse le_word
parse-add_bytes =
    parse_word-r_word embedded RegOp.add 1 2 3 (omega arith) (omega arith) (omega arith)

parse-IsTyped_example : IsTyped (reg_instr embedded RegOp.add (x_rd 1) (x_rs1 2) (x_rs2 3))
parse-IsTyped_example =
    parse-IsTyped embedded add_bytes (reg_instr embedded RegOp.add (x_rd 1) (x_rs1 2) (x_rs2 3))
      parse-add_bytes

-- `flw f1, 0(x2)`
abbrev flw_word : ℕ
flw_word = 0x00012087

flw_word-unknown : is_opcode (flw_word % 128) ≡ false
unfolding is_opcode
flw_word-unknown = refl

parse_word-unknown_example : parse_word embedded flw_word ≡ (
    if flw_word % 4 == 3
    then panic unwrap_none
    else (try_from_compressed embedded flw_word >>= unwrap))
parse_word-unknown_example = parse_word-unknown embedded flw_word flw_word-unknown

-- `bclri x1, x2, 5`
parse_word-bit_word_example :
    parse_word embedded
      (i_word (bit_code BitOp.bclri) 1 2 (5 + (bit_code BitOp.bclri).funct7 * 2 ^ 6))
    ≡ ok (bit_decoded BitOp.bclri (x_rd 1) (x_rs1 2) 5)
parse_word-bit_word_example =
    parse_word-bit_word embedded BitOp.bclri 1 2 5 (omega arith) (omega arith) (omega arith)
