-- ===== src/Loader/Total.antt =====
-- The loops of `Binary::parse` of src/frontend/binary.rs end.
use double_jit_vm.Prelude.{
  ℕ, suc, ◌≡◌, ◌≢◌, inl, inr, refl, List, Option, none, some, Bool-cases, ◌==◌, arith,
}
use double_jit_vm.Prelude.Outcome.{Outcome, ok, panic, >>=-eq-ok, Outcome-cases}
use double_jit_vm.Page.{ParseResult, success, failure, ElfError}
use double_jit_vm.Elf.Kinds.{Class}
use double_jit_vm.Elf.Header.{get_data, get_type, get_machine, get_ph_count, get_sh_count}
use double_jit_vm.Elf.Section.{SectionHeader}
use double_jit_vm.Elf.Program.{ProgramHeader}
use double_jit_vm.Elf.Zero.{Zero}
use double_jit_vm.Elf.File.{ElfFile, new, parse_section_header}
use double_jit_vm.Elf.Iter.{
  SectionIter, program_iter, section_iter, next_program, next_section, Flow, go, leave, for_each,
}
use double_jit_vm.Elf.Iter.Loop.{for_each-ne-none}
use double_jit_vm.Elf.Iter.Steps.{
  programs_left, sections_left, programs_left-falls, sections_left-falls,
}
use double_jit_vm.Elf.Interpreter.{interpreter_turn, interpreter_result, parse_interpreter}
use double_jit_vm.Loader.{
  is_little_endian, is_executable, is_riscv, bytes_eq, linker_path, segment_turn, section_turn,
  binary_of, after_segments, walk_sections, walk_segments, check_interpreter, check_header,
  set_bit_length, opened, parse,
}

module _ (z : Zero) (bytes : List ℕ) (elf : ElfFile) where
  program_loop-ne-none :
      {B : Type 0}
      → (body : ProgramHeader → Outcome (Flow B))
      → for_each (next_program z) body (suc (get_ph_count elf.header_part2)) (program_iter elf)
        ≢ ok none
  unfolding program_iter
  program_loop-ne-none body =
      for_each-ne-none (next_program z) body (programs_left z) (programs_left-falls z) _
        (program_iter elf) (omega arith)

  next_section-count :
      (it it' : SectionIter) (item : Option SectionHeader)
      → next_section z it ≡ ok (item, it')
      → get_sh_count it'.file.header_part2 ≡ get_sh_count it.file.header_part2
  unfolding next_section
  next_section-count it it' item h =
      elim (Outcome-cases (parse_section_header z it.file it.next_index)) [
        | inl (found, e) ↦ ground (arith, e, h)
        | inr (p, e) ↦ ground (arith, e, h)
      ]

  walk_sections-ne-none : walk_sections z elf ≢ ok none
  unfolding walk_sections section_iter
  walk_sections-ne-none h = elim (Bool-cases (get_sh_count elf.header_part2 == 0)) [
    | inl none_ ↦ absurd (ground (arith, none_, h))
    | inr some_ ↦
        let r = >>=-eq-ok (next_section z (section_iter elf)) _ (rw (some_) at h) in
        let r' =
          >>=-eq-ok
            (for_each (next_section z) section_turn (suc (get_sh_count elf.header_part2)) r.0.1) _
            r.2 in
        let same = next_section-count (section_iter elf) r.0.1 r.0.0 r.1 in
        let flow : r'.0 ≡ none = ended r'.0 (ground (arith, r'.2)) in
        for_each-ne-none (next_section z) section_turn (sections_left z) (sections_left-falls z)
          (suc (get_sh_count elf.header_part2)) r.0.1 (omega (arith, same))
          (ground (arith, r'.1, flow))
  ]
    where
      ended : (flow : Option (Flow ElfError)) → binary_of flow ≡ none → flow ≡ none
      ended none q = refl
      ended (some go) q = cc
      ended (some (leave e)) q = cc

  after_segments-ne-none :
      (flow : Option (Flow ElfError)) → flow ≢ none → after_segments z elf flow ≢ ok none
  after_segments-ne-none none h q = absurd (h refl)
  after_segments-ne-none (some go) h q = walk_sections-ne-none q
  after_segments-ne-none (some (leave e)) h q = cc

  walk_segments-ne-none : walk_segments z bytes elf ≢ ok none
  unfolding walk_segments
  walk_segments-ne-none h =
      let r =
        >>=-eq-ok
          (for_each (next_program z) (segment_turn bytes) (suc (get_ph_count elf.header_part2))
            (program_iter elf))
          _ h in
      after_segments-ne-none r.0
        (λ q. program_loop-ne-none (segment_turn bytes) (ground (arith, r.1, q))) r.2

  parse_interpreter-ne-none : parse_interpreter z elf ≢ ok none
  unfolding parse_interpreter interpreter_result
  parse_interpreter-ne-none h =
      let r =
        >>=-eq-ok
          (for_each (next_program z) (interpreter_turn elf.input)
            (suc (get_ph_count elf.header_part2)) (program_iter elf))
          _ h in
      let flow : r.0 ≡ none = ended r.0 (ground (arith, r.2)) in
      program_loop-ne-none (interpreter_turn elf.input) (ground (arith, r.1, flow))
    where
      ended : (flow : Option (Flow (List ℕ))) → interpreter_result flow ≡ none → flow ≡ none
      ended none q = refl
      ended (some go) q = cc
      ended (some (leave e)) q = cc

  check_interpreter-ne-none :
      (found : Option (ParseResult (List ℕ)))
      → found ≢ none
      → check_interpreter z bytes elf found ≢ ok none
  unfolding check_interpreter
  check_interpreter-ne-none none h q = absurd (h refl)
  check_interpreter-ne-none (some (failure e)) h q = cc
  check_interpreter-ne-none (some (success path)) h q =
      elim (Bool-cases (bytes_eq path linker_path)) [
        | inl same ↦ walk_segments-ne-none (rw (same) at q)
        | inr other ↦ absurd (ground (arith, other, q))
      ]

  check_header-ne-none : check_header z bytes elf ≢ ok none
  unfolding check_header
  check_header-ne-none h = elim (Bool-cases (is_little_endian (get_data elf.header_part1))) [
    | inr big ↦ absurd (ground (arith, big, h))
    | inl little ↦ elim (Bool-cases (is_executable (get_type elf.header_part2))) [
      | inr shared ↦ absurd (ground (arith, little, shared, h))
      | inl executable ↦ elim (Bool-cases (is_riscv (get_machine elf.header_part2))) [
        | inr foreign ↦ absurd (ground (arith, little, executable, foreign, h))
        | inl riscv ↦
            let r = >>=-eq-ok (parse_interpreter z elf) _ (rw (little, executable, riscv) at h) in
            check_interpreter-ne-none r.0 (λ q. parse_interpreter-ne-none (ground (arith, r.1, q)))
              r.2
      ]
    ]
  ]

  set_bit_length-ne-none :
      (before : ℕ) (c : Class) → (set_bit_length z bytes before elf c).result ≢ ok none
  unfolding set_bit_length
  set_bit_length-ne-none before Class.thirty_two = check_header-ne-none
  set_bit_length-ne-none before Class.sixty_four = check_header-ne-none
  set_bit_length-ne-none before Class.one_twenty_eight = check_header-ne-none
  set_bit_length-ne-none before _ = λ q. cc

opened-ne-none :
    (z : Zero) (bytes : List ℕ) (before : ℕ) (file : Outcome (ParseResult ElfFile))
    → (opened z bytes before file).result ≢ ok none
unfolding opened
opened-ne-none z bytes before (ok (success elf)) = set_bit_length-ne-none z bytes elf before _
opened-ne-none z bytes before (ok (failure e)) = λ q. cc
opened-ne-none z bytes before (panic p) = λ q. cc

-- `Binary::parse` ends on every file, whatever the views of `zero` are: none of its three loops is
-- cut off by the bound that the model sets, one more than the count of the entries.
pub parse-ne-none :
    (z : Zero) (bytes : List ℕ) (before : ℕ) → (parse z bytes before).result ≢ ok none
unfolding parse
parse-ne-none z bytes before = opened-ne-none z bytes before (new z bytes)
