-- ===== src/Loader/Decoding.antt =====
-- The two halves of the front end together: `Binary::parse` of src/frontend/binary.rs sets
-- `BIT_LENGTH`, and `Instruction::parse` of src/frontend/instruction.rs reads it.
use mathlib.Core.Path.{subst⁻¹}
use double_jit_vm.Prelude.{ℕ, ◌+◌, ◌*◌, ◌/◌, ◌%◌, ◌^◌, ◌≡◌, Bool, List, ◌∷◌, inl, inr, arith}
use double_jit_vm.Prelude.Outcome.{ok}
use double_jit_vm.Page.{success}
use double_jit_vm.Elf.Kinds.{Class}
use double_jit_vm.Elf.Header.{get_class}
use double_jit_vm.Elf.Zero.{Zero}
use double_jit_vm.Elf.File.{ElfFile, new}
use double_jit_vm.Decode.Config.{Config}
use double_jit_vm.Decode.Parse
use double_jit_vm.Decode.Parse.{le_word, parse_word}
use double_jit_vm.Isa.Compressed.{CInstr, IsAvailable, IsAllowed, encode, expand}
use double_jit_vm.RoundTrip.Compressed.All.{parse_word-encode}
use double_jit_vm.Loader.{parse}
use double_jit_vm.Loader.Width.{parse-bit_length}

-- The statics as the decoder finds them after the file was parsed; nothing writes `IS_E`.
abbrev pub config_after : Zero → List ℕ → ℕ → Bool → Config
config_after z bytes before is_e = record {
  bit_length = (parse z bytes before).bit_length;
  is_e = is_e;
}

-- `BIT_LENGTH` for a class that a file which opens can have.
abbrev pub width_of : Class → ℕ
width_of Class.thirty_two = 0
width_of _ = 1

module _ (z : Zero) (bytes : List ℕ) (before : ℕ) (elf : ElfFile) where
  width-bit_length :
      new z bytes ≡ ok (success elf)
      → (parse z bytes before).bit_length ≡ width_of (get_class elf.header_part1)
  width-bit_length e = elim (parse-bit_length z bytes before elf e) [
    | inl narrow ↦ rw (narrow.0) (narrow.1)
    | inr wide ↦ rw (wide.0) (wide.1)
  ]

  -- After `Binary::parse` was called on a file that opens, and however that parse ended, the decoder
  -- finds in the two bytes of an instruction of RV32C or RV64C, lower byte first and with at least two
  -- more bytes behind it, the instruction that it stands for. It has operands that the manuals allow,
  -- the width of the file's class has it, and it is not C.BNEZ, C.SDSP or a float load or store, nor,
  -- in a file of 32 bits, a shift by an immediate.
  pub parse-encode :
      (is_e : Bool) (c : CInstr) (x y : ℕ) (rest : List ℕ)
      → new z bytes ≡ ok (success elf)
      → IsAvailable (width_of (get_class elf.header_part1)) c
      → IsAllowed c
      → Parse.parse
          (config_after z bytes before is_e)
          (encode c % 256 ∷ encode c / 256 ∷ x ∷ y ∷ rest)
        ≡ ok (expand (config_after z bytes before is_e) c)
  unfolding Parse.parse le_word
  parse-encode is_e c x y rest e there allowed =
      let w : encode c % 256 + encode c / 256 * 2 ^ 8 + x * 2 ^ 16 + y * 2 ^ 24
          ≡ encode c + (x + y * 2 ^ 8) * 2 ^ 16 =
        omega arith in
      let width : IsAvailable (parse z bytes before).bit_length c =
        subst⁻¹ (λ n. IsAvailable n c) (width-bit_length e) there in
      rw (w) (parse_word-encode (config_after z bytes before is_e) c (x + y * 2 ^ 8) width allowed)
