-- ===== src/Elf/Iter.antt =====
-- `SectionIter` and `ProgramIter` of src/frontend/elf.rs, and the `for` loop over an iterator.
pub mod Loop
pub mod Steps
pub mod Seen
pub mod Visit
pub mod Left
use double_jit_vm.Prelude.{ℕ, zero, suc, ◌+◌, Option, none, some, leb, if◌then◌else◌}
use double_jit_vm.Prelude.Outcome.{Outcome, ok, ◌>>=◌}
use double_jit_vm.Page.{ParseResult, success, failure}
use double_jit_vm.Elf.Header.{get_sh_count, get_ph_count}
use double_jit_vm.Elf.Section.{SectionHeader}
use double_jit_vm.Elf.Program.{ProgramHeader}
use double_jit_vm.Elf.Zero.{Zero}
use double_jit_vm.Elf.File.{ElfFile, parse_section_header, parse_program_header}

pub record SectionIter : Type 0 where
  pub file : ElfFile
  pub next_index : ℕ

pub record ProgramIter : Type 0 where
  pub file : ElfFile
  pub next_index : ℕ

-- `Result::ok`.
abbrev pub result_ok {ℓ} : {A : Type ℓ} → ParseResult A → Option A
result_ok (success a) = some a
result_ok (failure e) = none

unfoldable pub section_iter : ElfFile → SectionIter
section_iter file = record { file = file; next_index = 0 }

unfoldable pub program_iter : ElfFile → ProgramIter
program_iter file = record { file = file; next_index = 0 }

-- `next` answers with an item, or `none`, and the iterator after it.
module _ (z : Zero) where
  unfoldable pub next_section : SectionIter → Outcome (Option SectionHeader × SectionIter)
  next_section it =
      if leb (get_sh_count it.file.header_part2) it.next_index then ok (none, it) else do
        result ← parse_section_header z it.file it.next_index
        ok (result_ok result, record it { next_index = it.next_index + 1 })

  unfoldable pub next_program : ProgramIter → Outcome (Option ProgramHeader × ProgramIter)
  next_program it =
      if leb (get_ph_count it.file.header_part2) it.next_index then ok (none, it) else do
        result ← parse_program_header z it.file it.next_index
        ok (result_ok result, record it { next_index = it.next_index + 1 })

-- What the body of a loop comes to: the next turn (at its end, or by `continue`), or a `return`.
pub data Flow {ℓ} (B : Type ℓ) : Type ℓ where
  go : Flow B
  leave : B → Flow B

-- `for item in it { body }`, cut off after a number of calls of `next`: `none` means cut off.
module _ {I A B : Type 0} (next : I → Outcome (Option A × I)) (body : A → Outcome (Flow B)) where
  unfoldable pub for_each : ℕ → I → Outcome (Option (Flow B))
  for_each zero it = ok none
  for_each (suc n) it = next it >>= λ step. elim step.0 [
    | none ↦ ok (some go)
    | some a ↦
        body a >>= λ flow. elim flow [ go ↦ for_each n step.1 | leave b ↦ ok (some (leave b)) ]
  ]
