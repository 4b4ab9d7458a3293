-- ===== src/Elf/Iter/Visit.antt =====
-- A `for` loop over the headers of src/frontend/elf.rs, as a walk over their numbers.
use double_jit_vm.Prelude.{ℕ, zero, suc, ◌+◌, ◌≡◌, refl, Option, some, inl, inr, arith}
use double_jit_vm.Prelude.Outcome.{Outcome, ok, ◌>>=◌, Outcome-cases}
use double_jit_vm.Page.{ParseResult, success, failure}
use double_jit_vm.Elf.Header.{get_sh_count, get_ph_count}
use double_jit_vm.Elf.Section.{SectionHeader}
use double_jit_vm.Elf.Program.{ProgramHeader}
use double_jit_vm.Elf.Zero.{Zero}
use double_jit_vm.Elf.File.{ElfFile, parse_section_header, parse_program_header}
use double_jit_vm.Elf.Iter.{
  section_iter, program_iter, next_section, next_program, Flow, go, leave, for_each,
}
use double_jit_vm.Elf.Iter.Loop.{
  for_each-end, for_each-next_panic, for_each-body_panic, for_each-go, for_each-leave,
}
use double_jit_vm.Elf.Iter.Steps.{counted}

-- The headers numbered `i`, `i + 1`, ..., as many as are left; one that cannot be read ends the walk
-- without an error, as `Result::ok` has it.
module _ {A B : Type 0} (read : ℕ → Outcome (ParseResult A)) (body : A → Outcome (Flow B)) where
  unfoldable pub visit : ℕ → ℕ → Outcome (Flow B)
  visit zero i = ok go
  visit (suc left) i = read i >>= λ found. elim found [
    | failure e ↦ ok go
    | success a ↦ body a >>= λ flow. elim flow [ go ↦ visit left (i + 1) | leave b ↦ ok (leave b) ]
  ]

-- Every counted iterator over the headers of a file.
module _ {I A B : Type 0} (file : I → ElfFile) (index : I → ℕ) (after : I → I) (count : ElfFile → ℕ)
    (read : ElfFile → ℕ → Outcome (ParseResult A))
    (same_file : (it : I) → file (after it) ≡ file it)
    (next_index : (it : I) → index (after it) ≡ index it + 1) (body : A → Outcome (Flow B)) where
  abbrev next_counted : I → Outcome (Option A × I)
  next_counted = counted (λ it. count (file it)) index (λ it. read (file it) (index it)) after

  abbrev uncut : Outcome (Flow B) → Outcome (Option (Flow B))
  uncut m = m >>= λ flow. ok (some flow)

  for_each-visit :
      (left : ℕ) (it : I)
      → index it + left ≡ count (file it)
      → for_each next_counted body (suc left) it
        ≡ uncut (visit (read (file it)) body left (index it))
  unfolding visit
  for_each-visit zero it e = for_each-end next_counted body zero it it (ground (arith, e))
  for_each-visit (suc left) it e = elim (Outcome-cases (read (file it) (index it))) [
    | inr (p, f) ↦
        rw (for_each-next_panic next_counted body (suc left) it p (ground (arith, e, f)), f) refl
    | inl (failure x, f) ↦
        rw (for_each-end next_counted body (suc left) it (after it) (ground (arith, e, f)), f) refl
    | inl (success a, f) ↦
        let n : next_counted it ≡ ok (some a, after it) = ground (arith, e, f) in
        elim (Outcome-cases (body a)) [
          | inr (p, g) ↦
              rw (for_each-body_panic next_counted body (suc left) it (after it) a p n g, f, g) refl
          | inl (leave b, g) ↦
              rw (for_each-leave next_counted body (suc left) it (after it) a b n g, f, g) refl
          | inl (go, g) ↦
              let rest =
                for_each-visit left (after it) (ground (arith, e, same_file it, next_index it)) in
              rw (for_each-go next_counted body (suc left) it (after it) a n g, f, g)
                (rw (same_file it, next_index it) at rest)
        ]
  ]

module _ (z : Zero) (elf : ElfFile) {B : Type 0} where
  -- Each of the two loops over the headers of a file runs its body once on every header, from 0 to
  -- the count less one and in this order, until the body leaves, a call panics, or a header is
  -- answered with an error, which ends the loop as if there were no more; one call of `next` more
  -- than the count is enough.
  pub for_each-headers :
      (on_program : ProgramHeader → Outcome (Flow B))
      (on_section : SectionHeader → Outcome (Flow B))
      → (for_each
            (next_program z)
            on_program
            (suc (get_ph_count elf.header_part2))
            (program_iter elf)
          ≡ (visit (parse_program_header z elf) on_program (get_ph_count elf.header_part2) 0
              >>= λ flow. ok (some flow)))
        × (for_each
              (next_section z)
              on_section
              (suc (get_sh_count elf.header_part2))
              (section_iter elf)
            ≡ (visit (parse_section_header z elf) on_section (get_sh_count elf.header_part2) 0
                >>= λ flow. ok (some flow)))
  unfolding next_program next_section program_iter section_iter
  for_each-headers on_program on_section = (
    for_each-visit (λ it. it.file) (λ it. it.next_index)
        (λ it. record it { next_index = it.next_index + 1 })
        (λ file. get_ph_count file.header_part2) (parse_program_header z) (λ it. refl) (λ it. refl)
        on_program (get_ph_count elf.header_part2) (program_iter elf) (omega arith),
    for_each-visit (λ it. it.file) (λ it. it.next_index)
        (λ it. record it { next_index = it.next_index + 1 })
        (λ file. get_sh_count file.header_part2) (parse_section_header z) (λ it. refl) (λ it. refl)
        on_section (get_sh_count elf.header_part2) (section_iter elf) (omega arith),
  )
