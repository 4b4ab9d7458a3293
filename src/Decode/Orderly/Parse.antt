-- ===== src/Decode/Orderly/Parse.antt =====
-- How `Instruction::parse` of src/frontend/instruction.rs ends.
use double_jit_vm.Prelude.{
  ℕ, ◌≤◌, ◌≡◌, ◌⊎◌, inl, inr, refl, List, [], ◌∷◌, Option, none, some, length, arith,
}
use double_jit_vm.Prelude.Outcome.{Outcome, ok, panic, unwrap_none, wrong_rounding_mode}
use double_jit_vm.Instr.{Instr}
use double_jit_vm.Compressed.{try_from_compressed}
use double_jit_vm.Compressed.Total.{try_from_compressed-total}
use double_jit_vm.Decode.Config.{Config}
use double_jit_vm.Decode.Parse.{opcode_arms, parse_full, parse_word, le_word, parse}
use double_jit_vm.Decode.Orderly.{IsOrderly, returns, no_arm, bad_mode, unwrap-IsOrderly}
use double_jit_vm.Decode.Orderly.Arms.{opcode_arms-IsOrderly}

parse_full-IsOrderly : (cfg : Config) (w : ℕ) → IsOrderly (parse_full cfg w)
unfolding parse_full
parse_full-IsOrderly cfg w = unwrap-IsOrderly (opcode_arms cfg w _) (opcode_arms-IsOrderly cfg w _)

after_compressed :
    (cfg : Config) (w : ℕ) (found : Option Instr)
    → try_from_compressed cfg w ≡ ok found
    → IsOrderly (parse_word cfg w)
unfolding parse_word
after_compressed cfg w (some i) e = rw (e) (returns i)
after_compressed cfg w none e = rw (e) (parse_full-IsOrderly cfg w)

parse_word-IsOrderly : (cfg : Config) (w : ℕ) → IsOrderly (parse_word cfg w)
parse_word-IsOrderly cfg w =
    let compressed = try_from_compressed-total cfg w in
    after_compressed cfg w compressed.0 compressed.1

ends :
    (m : Outcome Instr)
    → IsOrderly m
    → ((i : Instr) × (m ≡ ok i)) ⊎ ((m ≡ panic unwrap_none) ⊎ (m ≡ panic wrong_rounding_mode))
ends _ (returns i) = inl (i, refl)
ends _ no_arm = inr (inl refl)
ends _ bad_mode = inr (inr refl)

-- On four bytes or more, `parse` returns an instruction, or panics because no arm fits the word, or
-- because a float instruction has a reserved rounding mode. No register number and no conversion of
-- a field is ever out of range.
pub parse-ends :
    (cfg : Config) (bytes : List ℕ)
    → 4 ≤ length bytes
    → ((i : Instr) × (parse cfg bytes ≡ ok i))
      ⊎ ((parse cfg bytes ≡ panic unwrap_none) ⊎ (parse cfg bytes ≡ panic wrong_rounding_mode))
unfolding parse le_word
parse-ends cfg [] h = absurd (omega arith)
parse-ends cfg (a ∷ []) h = absurd (omega arith)
parse-ends cfg (a ∷ b ∷ []) h = absurd (omega arith)
parse-ends cfg (a ∷ b ∷ c ∷ []) h = absurd (omega arith)
parse-ends cfg (a ∷ b ∷ c ∷ d ∷ rest) h =
    ends (parse cfg (a ∷ b ∷ c ∷ d ∷ rest)) (parse_word-IsOrderly cfg _)
