-- ===== src/Loader/Laws.antt =====
-- What `Binary::parse` of src/frontend/binary.rs guarantees.
use double_jit_vm.Prelude.{ℕ, suc, ◌<◌, ◌≡◌, List, [], some, arith}
use double_jit_vm.Prelude.Outcome.{ok}
use double_jit_vm.Page.{success}
use double_jit_vm.Elf.Kinds.{Data, FileType, Machine, ProgramHeaderType}
use double_jit_vm.Elf.Header.{get_data, get_type, get_machine, get_ph_count}
use double_jit_vm.Elf.Program
use double_jit_vm.Elf.Program.{ProgramHeader}
use double_jit_vm.Elf.Zero.{Zero}
use double_jit_vm.Elf.File.{ElfFile, new, parse_program_header}
use double_jit_vm.Elf.Iter.{program_iter}
use double_jit_vm.Elf.Iter.Seen.{success-table, for_each-seen}
use double_jit_vm.Elf.Interpreter.{parse_interpreter}
use double_jit_vm.Loader.{Binary, linker_path, segment_turn, parse}
use double_jit_vm.Loader.Inversion.{
  walk_sections-pages, walk_segments-go, check_header-eq, parse-eq-success,
}
use double_jit_vm.Loader.Segments.{Fits, segment_turn-Fits}

module _ (z : Zero) (bytes : List ℕ) (before : ℕ) (elf : ElfFile) (b : Binary) where
  -- Whatever the views of `zero` are: if `Binary::parse` succeeds on a file whose header opens as
  -- `elf`, then the file is little-endian, an executable, for RISC-V, and names the linker of RISC-V
  -- Linux as its interpreter; and the binary has no page, since no segment is ever mapped.
  pub parse-accepts :
      new z bytes ≡ ok (success elf)
      → (parse z bytes before).result ≡ ok (some (success b))
      → (get_data elf.header_part1 ≡ Data.little_endian)
        × (get_type elf.header_part2 ≡ FileType.executable)
        × (get_machine elf.header_part2 ≡ Machine.riscv)
        × (parse_interpreter z elf ≡ ok (some (success linker_path)))
        × (b.pages ≡ [])
  parse-accepts e h =
      let checked = check_header-eq z bytes elf b (parse-eq-success z bytes elf b before e h) in
      let walked = walk_segments-go z bytes elf b checked.4 in
      (checked.0, checked.1, checked.2, checked.3, (walk_sections-pages z bytes elf b walked.1).1)

  -- If `Binary::parse` succeeds, then the segment of every loadable program header ends at or below
  -- the limit of the addresses, and below it unless it is empty, and its bytes lie in the file.
  pub parse-Fits :
      (i : ℕ) (ph : ProgramHeader)
      → new z bytes ≡ ok (success elf)
      → (parse z bytes before).result ≡ ok (some (success b))
      → i < get_ph_count elf.header_part2
      → parse_program_header z elf i ≡ ok (success ph)
      → Program.get_type ph ≡ ok ProgramHeaderType.load
      → Fits bytes ph
  unfolding program_iter
  parse-Fits i ph e h lt found loads =
      let checked = check_header-eq z bytes elf b (parse-eq-success z bytes elf b before e h) in
      let walked = walk_segments-go z bytes elf b checked.4 in
      let seen =
        for_each-seen z (segment_turn bytes) (suc (get_ph_count elf.header_part2))
          (program_iter elf) i (success-table z elf i ph found) walked.0 (omega arith) lt in
      let same : seen.0 ≡ ph = ground (arith, found, seen.1) in
      segment_turn-Fits bytes ph (rw (same) at seen.2) loads
