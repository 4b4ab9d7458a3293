-- ===== src/RoundTrip/Compressed/Key.antt =====
-- The decoder by its key, and the word that begins with a compressed instruction.
use double_jit_vm.Prelude.{ℕ, ◌+◌, ◌*◌, ◌%◌, ◌^◌, ◌≡◌, some}
use double_jit_vm.Prelude.Outcome.{ok}
use double_jit_vm.Word.{bits_at}
use double_jit_vm.Field.Compressed.Laws.{key_lem}
use double_jit_vm.Isa.Compressed.{CInstr, IsAvailable, IsAllowed, expand, encode}
use double_jit_vm.Compressed.{compressed_arms, try_from_compressed}
use double_jit_vm.Decode.Config.{Config}

-- `funct3` and the quadrant decide the arm.
pub by_key :
    (cfg : Config) (w key : ℕ)
    → bits_at w 13 3 * 2 ^ 13 + w % 4 ≡ key
    → try_from_compressed cfg w ≡ compressed_arms cfg key w
unfolding try_from_compressed
by_key cfg w key h = rw (key_lem w, h)

-- `rest` is the half word behind the instruction.
abbrev pub word : CInstr → ℕ → ℕ
word c rest = encode c + rest * 2 ^ 16

-- The decoder reads back the compressed instruction `c`, whatever follows it.
abbrev pub Reads : Config → CInstr → Type 0
Reads cfg c =
    (rest : ℕ) → IsAllowed c → try_from_compressed cfg (word c rest) ≡ ok (some (expand cfg c))

-- It does so on a width that has the instruction.
abbrev pub Decodes : Config → CInstr → Type 0
Decodes cfg c = IsAvailable cfg.bit_length c → Reads cfg c
