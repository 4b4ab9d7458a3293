-- ===== src/Elf/Iter/Seen.antt =====
-- What a loop over the program headers of src/frontend/elf.rs has seen when it ran to its end.
use double_jit_vm.Prelude.{
  List, ℕ, zero, suc, ◌+◌, ◌<◌, ◌≤◌, ◌≡◌, ◌≢◌, inl, inr, some, ltb, Bool, ◌==◌, ◌&&◌, Bool-cases,
  arith,
}
use double_jit_vm.Prelude.Outcome.{Outcome, ok, >>=-eq-ok}
use double_jit_vm.Page.{ElfError, ParseResult, success, failure}
use double_jit_vm.Elf.Kinds.{Class}
use double_jit_vm.Elf.Header.{get_class, get_ph_count, get_ph_offset, get_ph_entry_size}
use double_jit_vm.Elf.Program.{ProgramHeader}
use double_jit_vm.Elf.Zero.{Zero, add_checked, slice_range}
use double_jit_vm.Elf.File.{ElfFile, read_program, parse_program_header}
use double_jit_vm.Elf.Iter.{ProgramIter, next_program, Flow, go, for_each}
use double_jit_vm.Elf.Iter.Loop.{for_each-zero, for_each-eq-go}
use double_jit_vm.Elf.Iter.Steps.{next_program-some, next_program-none}

-- The file has a table of program headers.
abbrev pub HasTable : ElfFile → Type 0
HasTable file = (0 < get_ph_offset file.header_part2) × (0 < get_ph_entry_size file.header_part2)

abbrev has_entry : ElfFile → ℕ → Bool
has_entry file i =
    ltb i (get_ph_count file.header_part2)
    && (ltb 0 (get_ph_offset file.header_part2) && ltb 0 (get_ph_entry_size file.header_part2))

no_failure :
    (h : ProgramHeader) (e : ElfError)
    → ◌≢◌ {A = Outcome (ParseResult ProgramHeader)} (ok (success h)) (ok (failure e))
no_failure h e q = cc

module _ (z : Zero) where
  read_program-ne-failure :
      (c : Class) (input : List ℕ) (start end : ℕ) (e : ElfError)
      → read_program z c input start end ≢ ok (failure e)
  unfolding read_program
  read_program-ne-failure Class.thirty_two input start end e h =
      let v = >>=-eq-ok (slice_range input start end) _ h in
      let r = >>=-eq-ok (z.read_program32 v.0) _ v.2 in
      absurd (no_failure (ProgramHeader.program_header32 r.0) e r.2)
  read_program-ne-failure Class.sixty_four input start end e h =
      let v = >>=-eq-ok (slice_range input start end) _ h in
      let r = >>=-eq-ok (z.read_program64 v.0) _ v.2 in
      absurd (no_failure (ProgramHeader.program_header64 r.0) e r.2)
  read_program-ne-failure _ input start end e h = cc

  -- An error means that the file has no table, for any index within the count.
  pub failure-no_table :
      (file : ElfFile) (i : ℕ) (e : ElfError)
      → i < get_ph_count file.header_part2
      → HasTable file
      → parse_program_header z file i ≢ ok (failure e)
  unfolding parse_program_header
  failure-no_table file i e h t q = elim (Bool-cases (has_entry file i)) [
    | inl within ↦
        let r = >>=-eq-ok (add_checked 64 _ _) _ (rw (within) at q) in
        let r' = >>=-eq-ok (add_checked 64 r.0 _) _ r.2 in
        read_program-ne-failure (get_class file.header_part1) file.input r.0 r'.0 e r'.2
    | inr out ↦ absurd (ground arith)
  ]

  pub success-table :
      (file : ElfFile) (i : ℕ) (ph : ProgramHeader)
      → parse_program_header z file i ≡ ok (success ph)
      → HasTable file
  unfolding parse_program_header
  success-table file i ph q = ground arith

  pub for_each-seen :
      {B : Type 0}
      → (body : ProgramHeader → Outcome (Flow B)) (n : ℕ) (it : ProgramIter) (i : ℕ)
      → HasTable it.file
      → for_each (next_program z) body n it ≡ ok (some go)
      → it.next_index ≤ i
      → i < get_ph_count it.file.header_part2
      → (ph : ProgramHeader) × (parse_program_header z it.file i ≡ ok (success ph))
        × (body ph ≡ ok go)
  for_each-seen body zero it i t h le lt = absurd (for_each-zero (next_program z) body it h)
  for_each-seen body (suc n) it i t h le lt = elim (for_each-eq-go (next_program z) body n it h) [
    | inl stop ↦ elim (next_program-none z it stop.0 stop.1) [
      | inl out ↦ absurd (omega arith)
      | inr err ↦ absurd (failure-no_table it.file it.next_index err.0 (omega arith) t err.1)
    ]
    | inr more ↦
        let step = next_program-some z it more.1 more.0 more.2 in
        elim (Bool-cases (it.next_index == i)) [
          | inl here ↦
              let same : it.next_index ≡ i = ground arith in (more.0, rw (same) at step.2, more.3)
          | inr later ↦
              let it' : ProgramIter = record it { next_index = it.next_index + 1 } in
              let rest : for_each (next_program z) body n it' ≡ ok (some go) =
                rw (step.1) at more.4 in
              for_each-seen body n it' i t rest (ground (arith, later)) lt
        ]
  ]
