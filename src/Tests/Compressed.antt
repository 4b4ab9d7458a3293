-- ===== src/Tests/Compressed.antt =====
-- The theorems on the compressed decoder, and on what deviates, at concrete inputs.
use double_jit_vm.Prelude.{◌+◌, ◌*◌, ◌^◌, ◌≡◌, refl, ◌⊎◌, [], ◌∷◌, Option, some, false, arith}
use double_jit_vm.Prelude.Outcome.{ok, panic, unwrap_none, wrong_rounding_mode}
use double_jit_vm.Instr.{Instr}
use double_jit_vm.Instr.Operand.{Imm32}
use double_jit_vm.Isa.Words.{r_word, u_word, code}
use double_jit_vm.Isa.RegOps.{RegOp, reg_code, reg_instr}
use double_jit_vm.Isa.Compressed.{CInstr, expand, encode}
use double_jit_vm.Compressed.{try_from_compressed}
use double_jit_vm.Compressed.Quadrants.{x_rd, x_rs1, x_rs2}
use double_jit_vm.Compressed.Total.{try_from_compressed-total}
use double_jit_vm.Decode.Config.{Config}
use double_jit_vm.Decode.Parse.{parse_word, parse}
use double_jit_vm.Decode.Orderly.Parse.{parse-ends}
use double_jit_vm.RoundTrip.Compressed.All.{try_from_compressed-encode}
use double_jit_vm.Deviations.Upper.{UpperOp, upper_opcode, upper_instr, parse_word-u_word}
use double_jit_vm.Decode.Behind.{parse-half}
use double_jit_vm.Deviations.Stack.{Slip, slip_half, slip_decoded, parse_word-slip}
use double_jit_vm.Deviations.Reserved.{is_named, parse_word-reserved}

abbrev wide : Config
wide = record { bit_length = 1; is_e = false }

abbrev narrow : Config
narrow = record { bit_length = 0; is_e = false }

-- C.JAL to 1022 bytes before, on 32 bits.
try_from_compressed-encode_example :
    try_from_compressed narrow (encode (CInstr.jal 3074) + 0xffff * 2 ^ 16)
    ≡ ok (some (expand narrow (CInstr.jal 3074)))
try_from_compressed-encode_example =
    try_from_compressed-encode narrow (CInstr.jal 3074) 0xffff refl (omega arith, omega arith)

try_from_compressed-total_example :
    (found : Option Instr) × (try_from_compressed wide 0x9002 ≡ ok found)
try_from_compressed-total_example = try_from_compressed-total wide 0x9002

parse-ends_example :
    ((i : Instr) × (parse wide (0x93 ∷ 0x81 ∷ 0x81 ∷ 0xed ∷ []) ≡ ok i))
    ⊎ ((parse wide (0x93 ∷ 0x81 ∷ 0x81 ∷ 0xed ∷ []) ≡ panic unwrap_none)
        ⊎ (parse wide (0x93 ∷ 0x81 ∷ 0x81 ∷ 0xed ∷ []) ≡ panic wrong_rounding_mode))
parse-ends_example = parse-ends wide (0x93 ∷ 0x81 ∷ 0x81 ∷ 0xed ∷ []) (omega arith)

parse_word-u_word_example :
    parse_word wide (u_word (upper_opcode UpperOp.lui) 5 0x12345)
    ≡ ok (upper_instr wide UpperOp.lui (x_rd 5) (Imm32.imm 0x123))
parse_word-u_word_example = parse_word-u_word wide UpperOp.lui 5 0x12345 (omega arith) (omega arith)

-- C.SDSP of x7 at 504.
parse_word-slip_example :
    parse_word wide (slip_half (Slip.sdsp 7 504) + 3 * 2 ^ 16)
    ≡ ok (slip_decoded wide (Slip.sdsp 7 504))
parse_word-slip_example =
    parse_word-slip wide (Slip.sdsp 7 504) 3 (refl, omega arith, omega arith, omega arith)

-- C.LI of 1 into x10, before the two instructions C.NOP and C.EBREAK.
parse-half_example :
    parse wide (0x05 ∷ 0x45 ∷ 0x01 ∷ 0x00 ∷ []) ≡ parse wide (0x05 ∷ 0x45 ∷ 0x02 ∷ 0x90 ∷ [])
parse-half_example = parse-half wide 0x05 0x45 0x01 0x00 0x02 0x90 [] [] (omega arith)

div_4-reserved : is_named (reg_code RegOp.div).opcode 4 ≡ false
unfolding is_named
div_4-reserved = refl

-- The ZEXT.H of 32 bits, from x2 to x1, comes out as a division by x0.
parse_word-reserved_example :
    parse_word narrow
      (r_word (code (reg_code RegOp.div).opcode 4 (reg_code RegOp.div).funct3) 1 2 0)
    ≡ ok (reg_instr narrow RegOp.div (x_rd 1) (x_rs1 2) (x_rs2 0))
parse_word-reserved_example =
    parse_word-reserved narrow RegOp.div 4 1 2 0 refl div_4-reserved (omega arith) (omega arith)
      (omega arith) (omega arith)
