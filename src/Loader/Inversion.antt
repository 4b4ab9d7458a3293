-- ===== src/Loader/Inversion.antt =====
-- A successful `Binary::parse` of src/frontend/binary.rs, taken apart from the last step to the first.
use double_jit_vm.Prelude.{
  ℕ, suc, ◌<◌, ◌≡◌, refl, List, [], ◌∷◌, Option, none, some, Bool-cases, inl, inr, true, ◌==◌,
  arith,
}
use double_jit_vm.Prelude.Outcome.{ok, >>=-eq-ok}
use double_jit_vm.Page.{ParseResult, success, failure, ElfError}
use double_jit_vm.Elf.Kinds.{Class, Data, FileType, Machine}
use double_jit_vm.Elf.Header.{get_data, get_type, get_machine, get_ph_count, get_sh_count}
use double_jit_vm.Elf.Zero.{Zero}
use double_jit_vm.Elf.File.{ElfFile, new}
use double_jit_vm.Elf.Iter.{
  program_iter, next_program, next_section, section_iter, Flow, go, leave, for_each,
}
use double_jit_vm.Elf.Interpreter.{parse_interpreter}
use double_jit_vm.Loader.{
  Binary, is_little_endian, is_executable, is_riscv, bytes_eq, linker_path, segment_turn,
  section_turn, binary_of, after_segments, walk_sections, walk_segments, check_interpreter,
  check_header, set_bit_length, opened, parse,
}

bytes_eq_sound : (as_ bs : List ℕ) → bytes_eq as_ bs ≡ true → as_ ≡ bs
bytes_eq_sound [] [] h = refl
bytes_eq_sound [] (b ∷ bs) h = ground (arith, h)
bytes_eq_sound (a ∷ as_) [] h = ground (arith, h)
bytes_eq_sound (a ∷ as_) (b ∷ bs) h = ground (arith, h, bytes_eq_sound as_ bs)

is_little_endian_sound : (d : Data) → is_little_endian d ≡ true → d ≡ Data.little_endian
is_little_endian_sound Data.little_endian h = refl
is_little_endian_sound _ h = cc

is_executable_sound : (t : FileType) → is_executable t ≡ true → t ≡ FileType.executable
is_executable_sound FileType.executable h = refl
is_executable_sound _ h = cc

is_riscv_sound : (m : Machine) → is_riscv m ≡ true → m ≡ Machine.riscv
is_riscv_sound Machine.riscv h = refl
is_riscv_sound _ h = cc

binary_of-pages :
    (flow : Option (Flow ElfError)) (b : Binary) → binary_of flow ≡ some (success b) → b.pages ≡ []
binary_of-pages none b h = cc
binary_of-pages (some go) b h = ground (arith, h)
binary_of-pages (some (leave e)) b h = ground (arith, h)

module _ (z : Zero) (bytes : List ℕ) (elf : ElfFile) (b : Binary) where
  pub walk_sections-pages :
      walk_sections z elf ≡ ok (some (success b))
      → (0 < get_sh_count elf.header_part2) × (b.pages ≡ [])
  unfolding walk_sections
  walk_sections-pages h = elim (Bool-cases (get_sh_count elf.header_part2 == 0)) [
    | inl none_ ↦ absurd (ground (arith, none_, h))
    | inr some_ ↦
        let r = >>=-eq-ok (next_section z (section_iter elf)) _ (rw (some_) at h) in
        let r' =
          >>=-eq-ok
            (for_each (next_section z) section_turn (suc (get_sh_count elf.header_part2)) r.0.1) _
            r.2 in
        (ground (arith, some_), binary_of-pages r'.0 b (ground (arith, r'.2)))
  ]

  after_segments-go :
      (flow : Option (Flow ElfError))
      → after_segments z elf flow ≡ ok (some (success b))
      → (flow ≡ some go) × (walk_sections z elf ≡ ok (some (success b)))
  after_segments-go none h = absurd (ground (arith, h))
  after_segments-go (some go) h = (refl, h)
  after_segments-go (some (leave e)) h = absurd (ground (arith, h))

  pub walk_segments-go :
      walk_segments z bytes elf ≡ ok (some (success b))
      → (for_each
            (next_program z)
            (segment_turn bytes)
            (suc (get_ph_count elf.header_part2))
            (program_iter elf)
          ≡ ok (some go))
        × (walk_sections z elf ≡ ok (some (success b)))
  unfolding walk_segments
  walk_segments-go h =
      let r =
        >>=-eq-ok
          (for_each (next_program z) (segment_turn bytes) (suc (get_ph_count elf.header_part2))
            (program_iter elf))
          _ h in
      let s = after_segments-go r.0 r.2 in (ground (arith, r.1, s.0), s.1)

  check_interpreter-path :
      (found : Option (ParseResult (List ℕ)))
      → check_interpreter z bytes elf found ≡ ok (some (success b))
      → (found ≡ some (success linker_path)) × (walk_segments z bytes elf ≡ ok (some (success b)))
  unfolding check_interpreter
  check_interpreter-path none h = absurd (ground (arith, h))
  check_interpreter-path (some (failure e)) h = absurd (ground (arith, h))
  check_interpreter-path (some (success path)) h = elim (Bool-cases (bytes_eq path linker_path)) [
    | inl same ↦ (rw (bytes_eq_sound path linker_path same) refl, rw (same) at h)
    | inr other ↦ absurd (ground (arith, other, h))
  ]

  pub check_header-eq :
      check_header z bytes elf ≡ ok (some (success b))
      → (get_data elf.header_part1 ≡ Data.little_endian)
        × (get_type elf.header_part2 ≡ FileType.executable)
        × (get_machine elf.header_part2 ≡ Machine.riscv)
        × (parse_interpreter z elf ≡ ok (some (success linker_path)))
        × (walk_segments z bytes elf ≡ ok (some (success b)))
  unfolding check_header
  check_header-eq h = elim (Bool-cases (is_little_endian (get_data elf.header_part1))) [
    | inr big ↦ absurd (ground (arith, big, h))
    | inl little ↦ elim (Bool-cases (is_executable (get_type elf.header_part2))) [
      | inr shared ↦ absurd (ground (arith, little, shared, h))
      | inl executable ↦ elim (Bool-cases (is_riscv (get_machine elf.header_part2))) [
        | inr foreign ↦ absurd (ground (arith, little, executable, foreign, h))
        | inl riscv ↦
            let r = >>=-eq-ok (parse_interpreter z elf) _ (rw (little, executable, riscv) at h) in
            let s = check_interpreter-path r.0 r.2 in
            (
              is_little_endian_sound _ little,
              is_executable_sound _ executable,
              is_riscv_sound _ riscv,
              ground (arith, r.1, s.0),
              s.1,
            )
      ]
    ]
  ]

  -- The result is that of the checks on the header, and the class decides `BIT_LENGTH`.
  set_bit_length-eq :
      (before : ℕ) (c : Class)
      → (set_bit_length z bytes before elf c).result ≡ ok (some (success b))
      → check_header z bytes elf ≡ ok (some (success b))
  unfolding set_bit_length
  set_bit_length-eq before Class.thirty_two h = h
  set_bit_length-eq before Class.sixty_four h = h
  set_bit_length-eq before Class.one_twenty_eight h = h
  set_bit_length-eq before _ h = absurd (ground (arith, h))

  pub parse-eq-success :
      (before : ℕ)
      → new z bytes ≡ ok (success elf)
      → (parse z bytes before).result ≡ ok (some (success b))
      → check_header z bytes elf ≡ ok (some (success b))
  unfolding parse opened
  parse-eq-success before e h = set_bit_length-eq before _ (rw (e) at h)
