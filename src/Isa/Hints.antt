-- ===== src/Isa/Hints.antt =====
-- The compressed instructions that the manuals give no effect: C.NOP, and the HINT encodings of C.ADDI,
-- C.LI, C.LUI, C.SLLI, C.SRLI, C.SRAI, C.MV and C.ADD.
use double_jit_vm.Prelude.{ℕ, ◌^◌, ◌<◌}
use double_jit_vm.Isa.Halves.{IsPopular, IsNonZero, ci_word, cb_word, cr_word}

-- Into x0, or by an immediate or an amount of zero.
pub data Hint : Type 0 where
  nop addi_zero li lui slli slli_zero srli_zero srai_zero mv add : ℕ → Hint

-- On 64 bits, whose shift amounts have six bits.
abbrev pub IsHint : Hint → Type 0
IsHint (Hint.nop i) = i < 2 ^ 6
IsHint (Hint.addi_zero d) = IsNonZero d
IsHint (Hint.li i) = i < 2 ^ 6
IsHint (Hint.lui i) = (0 < i) × (i < 2 ^ 6)
IsHint (Hint.slli i) = i < 2 ^ 6
IsHint (Hint.slli_zero d) = d < 32
IsHint (Hint.srli_zero d) = IsPopular d
IsHint (Hint.srai_zero d) = IsPopular d
IsHint (Hint.mv b) = IsNonZero b
IsHint (Hint.add b) = IsNonZero b

abbrev pub hint_half : Hint → ℕ
hint_half (Hint.nop i) = ci_word 1 0 0 i
hint_half (Hint.addi_zero d) = ci_word 1 0 d 0
hint_half (Hint.li i) = ci_word 1 2 0 i
hint_half (Hint.lui i) = ci_word 1 3 0 i
hint_half (Hint.slli i) = ci_word 2 0 0 i
hint_half (Hint.slli_zero d) = ci_word 2 0 d 0
hint_half (Hint.srli_zero d) = cb_word 0 d 0
hint_half (Hint.srai_zero d) = cb_word 1 d 0
hint_half (Hint.mv b) = cr_word 8 0 b
hint_half (Hint.add b) = cr_word 9 0 b
