-- ===== src/Decode/Behind.antt =====
-- `Instruction::parse` of src/frontend/instruction.rs and the bytes behind a compressed instruction.
use double_jit_vm.Prelude.{ℕ, ◌+◌, ◌*◌, ◌%◌, ◌^◌, ◌≡◌, ◌≢◌, false, List, ◌∷◌, sym, refl, arith}
use double_jit_vm.Compressed.Half.{low_half, try_from_compressed-half}
use double_jit_vm.Decode.Config.{Config}
use double_jit_vm.Decode.Parse.{le_word, parse_word, parse}
use double_jit_vm.Decode.Unknown.{is_opcode, parse_word-unknown}

-- An opcode has its two low bits set.
is_opcode-half : (w : ℕ) → w % 4 ≢ 3 → is_opcode (w % 128) ≡ false
unfolding is_opcode
is_opcode-half w half = ground arith

parse_word-half :
    (cfg : Config) (w : ℕ) → w % 4 ≢ 3 → parse_word cfg (low_half w) ≡ parse_word cfg w
parse_word-half cfg w half =
    rw
      (
        parse_word-unknown cfg w (is_opcode-half w half),
        parse_word-unknown cfg (low_half w) (is_opcode-half (low_half w) (omega arith)),
        try_from_compressed-half w cfg,
      )
      (ground arith)

parse_word-same :
    (cfg : Config) (w v : ℕ)
    → w % 4 ≢ 3
    → low_half w ≡ low_half v
    → parse_word cfg w ≡ parse_word cfg v
parse_word-same cfg w v half same =
    let left = parse_word-half cfg w half in
    let right = parse_word-half cfg v (omega arith) in rw (sym left, same, right) refl

-- If the two low bits of the first byte are not both set, the decoder's result, also where it panics,
-- is the same whatever two bytes follow the first two, and whatever follows these.
pub parse-half :
    (cfg : Config)
    → (a b c d x y : ℕ) (rest others : List ℕ) → a % 4 ≢ 3
    → parse cfg (a ∷ b ∷ c ∷ d ∷ rest) ≡ parse cfg (a ∷ b ∷ x ∷ y ∷ others)
unfolding parse le_word
parse-half cfg a b c d x y rest others half =
    parse_word-same cfg (a + b * 2 ^ 8 + c * 2 ^ 16 + d * 2 ^ 24)
      (a + b * 2 ^ 8 + x * 2 ^ 16 + y * 2 ^ 24) (omega arith) (omega arith)
