-- ===== src/Decode/Typed/Parse.antt =====
-- The typing of what `Instruction::parse` of src/frontend/instruction.rs returns.
use double_jit_vm.Prelude.{ℕ, ◌≡◌, refl, List, [], ◌∷◌, Option, none, some}
use mathlib.Core.Path.{subst}
use double_jit_vm.Prelude.Outcome.{Outcome, ok, panic}
use double_jit_vm.Instr.{Instr}
use double_jit_vm.Compressed.{try_from_compressed}
use double_jit_vm.Decode.Config.{Config}
use double_jit_vm.Decode.Parse.{opcode_arms, parse_full, parse_word, le_word, parse}
use double_jit_vm.Decode.Typed.{IsTyped, Returns, Finds, unwrap-Returns}
use double_jit_vm.Decode.Typed.Arms.{opcode_arms-Finds}
use double_jit_vm.Decode.Typed.Compressed.{try_from_compressed-Returns}

parse_full-Returns : (cfg : Config) (w : ℕ) → Returns IsTyped (parse_full cfg w)
unfolding parse_full
parse_full-Returns cfg w = unwrap-Returns IsTyped (opcode_arms cfg w _) (opcode_arms-Finds cfg w _)

-- What the compressed decoder found is kept; otherwise the 32-bit decoder answers.
after_compressed :
    (cfg : Config) (w : ℕ) (compressed : Outcome (Option Instr))
    → Returns (Finds IsTyped) compressed
    → try_from_compressed cfg w ≡ compressed
    → Returns IsTyped (parse_word cfg w)
unfolding parse_word Returns Finds
after_compressed cfg w (ok (some i)) h e = rw (e) h
after_compressed cfg w (ok none) h e = rw (e) (parse_full-Returns cfg w)
after_compressed cfg w (panic _) h e = rw (e) tt

pub parse_word-Returns : (cfg : Config) (w : ℕ) → Returns IsTyped (parse_word cfg w)
parse_word-Returns cfg w =
    after_compressed cfg w (try_from_compressed cfg w) (try_from_compressed-Returns cfg w) refl

parse-Returns : (cfg : Config) (bytes : List ℕ) → Returns IsTyped (parse cfg bytes)
unfolding parse le_word Returns
parse-Returns cfg [] = tt
parse-Returns cfg (a ∷ []) = tt
parse-Returns cfg (a ∷ b ∷ []) = tt
parse-Returns cfg (a ∷ b ∷ c ∷ []) = tt
parse-Returns cfg (a ∷ b ∷ c ∷ d ∷ rest) = parse_word-Returns cfg _

-- Every instruction that `parse` returns is typed: each register is of the file, integer or float,
-- that the RISC-V manuals give the operand, by a number below 32; shift amounts are below 64, the
-- immediates of the control-register instructions below 32, the fields of `FENCE` below 16, and all
-- other immediates fit a `u32`; and no vector instruction is returned.
pub parse-IsTyped : (cfg : Config) (bytes : List ℕ) (i : Instr) → parse cfg bytes ≡ ok i → IsTyped i
unfolding Returns
parse-IsTyped cfg bytes i h = subst (Returns IsTyped) h (parse-Returns cfg bytes)
