-- ===== src/Elf/Iter/Steps.antt =====
-- One call of `next` on the iterators of src/frontend/elf.rs.
use double_jit_vm.Prelude.{
  ℕ, ◌+◌, ◌-◌, ◌<◌, ◌≤◌, ◌≡◌, ◌⊎◌, inl, inr, Option, none, some, leb, if◌then◌else◌, arith,
}
use double_jit_vm.Prelude.Outcome.{Outcome, ok, ◌>>=◌, Outcome-cases}
use double_jit_vm.Page.{ElfError, ParseResult, success, failure}
use double_jit_vm.Elf.Header.{get_sh_count, get_ph_count}
use double_jit_vm.Elf.Section.{SectionHeader}
use double_jit_vm.Elf.Program.{ProgramHeader}
use double_jit_vm.Elf.Zero.{Zero}
use double_jit_vm.Elf.File.{parse_section_header, parse_program_header}
use double_jit_vm.Elf.Iter.{SectionIter, ProgramIter, next_section, next_program, result_ok}

-- What a counted iterator does: it stops at `count`, else hands the next entry on.
module _ {I A : Type 0} (count index : I → ℕ) (entry : I → Outcome (ParseResult A))
    (after : I → I) where
  abbrev pub counted : I → Outcome (Option A × I)
  counted it =
      if leb (count it) (index it)
      then ok (none, it)
      else (entry it >>= λ result. ok (result_ok result, after it))

  pub counted-some :
      (it it' : I) (a : A)
      → counted it ≡ ok (some a, it')
      → (index it < count it) × (it' ≡ after it) × (entry it ≡ ok (success a))
  counted-some it it' a h = elim (Outcome-cases (entry it)) [
    | inl (success b, e) ↦ ground (arith, e, h)
    | inl (failure x, e) ↦ ground (arith, e, h)
    | inr (p, e) ↦ ground (arith, e, h)
  ]

  pub counted-none :
      (it it' : I)
      → counted it ≡ ok (none, it')
      → (count it ≤ index it) ⊎ ((e : ElfError) × (entry it ≡ ok (failure e)))
  counted-none it it' h = elim (Outcome-cases (entry it)) [
    | inl (success b, e) ↦ inl (ground (arith, e, h))
    | inl (failure x, e) ↦ inr (x, e)
    | inr (p, e) ↦ inl (ground (arith, e, h))
  ]

module _ (z : Zero) where
  pub next_program-some :
      (it it' : ProgramIter) (ph : ProgramHeader)
      → next_program z it ≡ ok (some ph, it')
      → (it.next_index < get_ph_count it.file.header_part2)
        × (it' ≡ record it { next_index = it.next_index + 1 })
        × (parse_program_header z it.file it.next_index ≡ ok (success ph))
  unfolding next_program
  next_program-some = counted-some _ _ _ _

  pub next_program-none :
      (it it' : ProgramIter)
      → next_program z it ≡ ok (none, it')
      → (get_ph_count it.file.header_part2 ≤ it.next_index)
        ⊎ ((e : ElfError) × (parse_program_header z it.file it.next_index ≡ ok (failure e)))
  unfolding next_program
  next_program-none = counted-none _ _ _ _

  pub next_section-some :
      (it it' : SectionIter) (sh : SectionHeader)
      → next_section z it ≡ ok (some sh, it')
      → (it.next_index < get_sh_count it.file.header_part2)
        × (it' ≡ record it { next_index = it.next_index + 1 })
        × (parse_section_header z it.file it.next_index ≡ ok (success sh))
  unfolding next_section
  next_section-some = counted-some _ _ _ _

  -- The entries that are left.
  abbrev pub programs_left : ProgramIter → ℕ
  programs_left it = get_ph_count it.file.header_part2 - it.next_index

  abbrev pub sections_left : SectionIter → ℕ
  sections_left it = get_sh_count it.file.header_part2 - it.next_index

  pub programs_left-falls :
      (it it' : ProgramIter) (ph : ProgramHeader)
      → next_program z it ≡ ok (some ph, it')
      → programs_left it' < programs_left it
  programs_left-falls it it' ph e = let s = next_program-some it it' ph e in rw (s.1) (omega arith)

  pub sections_left-falls :
      (it it' : SectionIter) (sh : SectionHeader)
      → next_section z it ≡ ok (some sh, it')
      → sections_left it' < sections_left it
  sections_left-falls it it' sh e = let s = next_section-some it it' sh e in rw (s.1) (omega arith)
