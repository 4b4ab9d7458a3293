-- ===== src/Tests/Iter.antt =====
-- The theorems on the instruction iterator at concrete inputs.
use double_jit_vm.Prelude.{
  true, false, ◌-◌, ◌%◌, ℕ, zero, suc, ◌+◌, ◌/◌, ◌^◌, ◌≡◌, refl, [], ◌∷◌, none, some, length,
  replicate, length-replicate, arith,
}
use double_jit_vm.Prelude.Outcome.{ok, panic, out_of_range, arithmetic_overflow}
use double_jit_vm.Page.{Page, contents, page_size}
use double_jit_vm.Iter.{InstructionIter, mapped, next}
use double_jit_vm.Iter.Laws.{reader_at, AreUnmapped, next-panic, next-waiting}

abbrev zero_page : Page
zero_page = Page.owned (replicate 4096 0)

-- A memory whose first page is missing, and one without a page.
abbrev one_page : InstructionIter
one_page = record { address = 16; memory_map = none ∷ some zero_page ∷ [] }

abbrev no_page : InstructionIter
no_page = record { address = 0x10074; memory_map = none ∷ [] }

one_page-empty : AreUnmapped one_page.memory_map (one_page.address / 2 ^ 12) 1
unfolding mapped
one_page-empty zero h g = refl
one_page-empty (suc q) h g = absurd (omega arith)

one_page-mapped : mapped one_page.memory_map (one_page.address / 2 ^ 12 + 1) ≡ some zero_page
unfolding mapped
one_page-mapped = refl

length-zero_page : length (contents zero_page) ≡ page_size
unfolding contents
length-zero_page = length-replicate {A = ℕ} 4096 0

no_page-empty : (q : ℕ) → mapped no_page.memory_map q ≡ none
unfolding mapped
no_page-empty zero = refl
no_page-empty (suc q) = refl

next-panic_example : next false (1 + suc 2) one_page ≡ panic out_of_range
next-panic_example =
    next-panic false one_page zero_page 1 2 (omega arith) (omega arith) one_page-empty
      one_page-mapped length-zero_page (omega arith)

-- A build with checks comes to the end of the range.
next-waiting_example : next true (2 ^ 64) no_page ≡ panic arithmetic_overflow
next-waiting_example =
    next-waiting true no_page (2 ^ 64) (omega arith) (λ q low high. no_page-empty (q % 2 ^ 64))

-- Without checks the page after the last one is page 0.
no_page-around :
    next false (2 ^ 64 - 16) no_page ≡ ok (record (reader_at 0x10074) { page_index = 0 })
no_page-around =
    next-waiting false no_page (2 ^ 64 - 16) (omega arith)
      (λ q low high. no_page-empty (q % 2 ^ 64))
