-- ===== src/Decode/Full.antt =====
-- A word whose two low bits are set is no compressed instruction: the 32-bit decoder answers.
use Prim.Native.Nat.{bit_and}
use double_jit_vm.Field.{slice}
use double_jit_vm.Field.Laws.{slice_lem}
use double_jit_vm.Prelude.{ℕ, ◌/◌, ◌%◌, ◌≡◌, none, arith}
use double_jit_vm.Prelude.Outcome.{ok, ◌>>=◌, unwrap}
use double_jit_vm.Bits.{bit_and-halves}
use double_jit_vm.Compressed.{compressed_arms, try_from_compressed}
use double_jit_vm.Decode.Config.{Config}
use double_jit_vm.Decode.Parse.{parse_word, parse_full, opcode_arms}

-- The mask of the compressed decoder keeps the two low bits.
pub key_low_bits : (bit : ℕ) → bit_and bit 0b111_00000000000_11 % 4 ≡ bit % 4
key_low_bits bit =
    omega
      (arith, bit_and-halves bit 0b111_00000000000_11, bit_and-halves (bit / 2) 0b111_00000000000_1)

pub compressed_arms-none :
    (cfg : Config) (key bit : ℕ) → key % 4 ≡ 3 → compressed_arms cfg key bit ≡ ok none
unfolding compressed_arms
compressed_arms-none cfg key bit h = ground arith

pub try_from_compressed-none :
    (cfg : Config) (bit : ℕ) → bit % 4 ≡ 3 → try_from_compressed cfg bit ≡ ok none
unfolding try_from_compressed
try_from_compressed-none cfg bit h =
    compressed_arms-none cfg (bit_and bit 0b111_00000000000_11) bit
      (omega (arith, key_low_bits bit))

pub parse_word-eq-full :
    (cfg : Config) (bit : ℕ) → bit % 4 ≡ 3 → parse_word cfg bit ≡ parse_full cfg bit
unfolding parse_word
parse_word-eq-full cfg bit h = rw (try_from_compressed-none cfg bit h)

-- A word that passes the compressed decoder is decided by its opcode.
pub parse_word-eq-arms :
    (cfg : Config) (w opcode : ℕ)
    → w % 128 ≡ opcode
    → opcode % 4 ≡ 3
    → parse_word cfg w ≡ (opcode_arms cfg w opcode >>= unwrap)
unfolding parse_full
parse_word-eq-arms cfg w opcode h low =
    let opcode_of : slice w 0 7 0 ≡ opcode = omega (arith, slice_lem w 0 7 0) in
    rw (parse_word-eq-full cfg w (omega arith), opcode_of)
