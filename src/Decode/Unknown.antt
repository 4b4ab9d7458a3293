-- ===== src/Decode/Unknown.antt =====
-- The words that `Instruction::parse` of src/frontend/instruction.rs has no arm for.
use double_jit_vm.Prelude.{
  ℕ, ◌%◌, ◌≡◌, inl, inr, Bool, false, ◌==◌, ◌||◌, Option, none, some, if◌then◌else◌, Bool-cases,
  arith,
}
use double_jit_vm.Prelude.Outcome.{ok, panic, ◌>>=◌, unwrap, unwrap_none}
use double_jit_vm.Field.{slice}
use double_jit_vm.Field.Laws.{slice_lem}
use double_jit_vm.Instr.{Instr}
use double_jit_vm.Compressed.{try_from_compressed}
use double_jit_vm.Compressed.Total.{try_from_compressed-total}
use double_jit_vm.Decode.Config.{Config}
use double_jit_vm.Decode.Parse.{opcode_arms, parse_full, parse_word}
use double_jit_vm.Decode.Full.{try_from_compressed-none}

-- The opcodes with instructions of I, M, A, Zicsr, Zifencei and B, and the float arithmetic. The
-- loads and stores of floats, the vector instructions and the custom opcodes are not among them.
unfoldable pub is_opcode : ℕ → Bool
is_opcode n =
    (n == 0x03 || n == 0x0f || n == 0x13 || n == 0x17 || n == 0x1b)
    || (n == 0x23 || n == 0x2f || n == 0x33 || n == 0x37 || n == 0x3b)
    || (n == 0x43 || n == 0x47 || n == 0x4b || n == 0x4f || n == 0x53)
    || (n == 0x63 || n == 0x67 || n == 0x6f || n == 0x73)

opcode_arms-unknown :
    (cfg : Config) (w opcode : ℕ) → is_opcode opcode ≡ false → opcode_arms cfg w opcode ≡ ok none
unfolding opcode_arms is_opcode
opcode_arms-unknown cfg w opcode h = ground arith

parse_full-unknown :
    (cfg : Config) (w : ℕ) → is_opcode (w % 128) ≡ false → parse_full cfg w ≡ panic unwrap_none
unfolding parse_full
parse_full-unknown cfg w h =
    let opcode_of : slice w 0 7 0 ≡ w % 128 = omega (arith, slice_lem w 0 7 0) in
    rw (opcode_of, opcode_arms-unknown cfg w (w % 128) h)

after_compressed :
    (cfg : Config) (w : ℕ) (found : Option Instr)
    → is_opcode (w % 128) ≡ false
    → try_from_compressed cfg w ≡ ok found
    → parse_word cfg w ≡ (try_from_compressed cfg w >>= unwrap)
unfolding parse_word
after_compressed cfg w (some i) h e = rw e
after_compressed cfg w none h e = rw (e, parse_full-unknown cfg w h)

-- On a word whose low seven bits are none of the 19 opcodes of I, M, A, Zicsr, Zifencei, B and the
-- float arithmetic, the decoder panics if the two low bits are set, as they are in every load and
-- store of a float and in every vector instruction; else it is the compressed decoder with an
-- `unwrap`.
pub parse_word-unknown :
    (cfg : Config) (w : ℕ)
    → is_opcode (w % 128) ≡ false
    → parse_word cfg w
      ≡ (if w % 4 == 3 then panic unwrap_none else (try_from_compressed cfg w >>= unwrap))
parse_word-unknown cfg w h =
    let found = try_from_compressed-total cfg w in
    let rest = after_compressed cfg w found.0 h found.1 in
    elim (Bool-cases (w % 4 == 3)) [
      | inl full ↦
          let low : w % 4 ≡ 3 = ground arith in rw (full, rest, try_from_compressed-none cfg w low)
      | inr half ↦ rw (half, rest)
    ]
