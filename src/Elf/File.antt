-- ===== src/Elf/File.antt =====
-- `ElfFile` of src/frontend/elf.rs: a file, opened, and its tables.
use double_jit_vm.Prelude.{ℕ, ◌+◌, ◌*◌, List, length, ltb, ◌&&◌, if◌then◌else◌}
use double_jit_vm.Prelude.Outcome.{Outcome, ok, panic, ◌>>=◌, not_implemented, unreachable_code}
use double_jit_vm.Page.{ElfError, ParseResult, success, failure}
use double_jit_vm.Elf.Kinds.{Class, SectionHeaderType}
use double_jit_vm.Elf.Header.{
  HeaderPt1, HeaderPt2, get_class, size_of_part1, size_of_header32, size_of_header64,
  get_sh_entry_size, get_sh_offset, get_sh_str_index, get_ph_count, get_ph_offset,
  get_ph_entry_size,
}
use double_jit_vm.Elf.Section
use double_jit_vm.Elf.Section.{SectionHeader}
use double_jit_vm.Elf.Program.{ProgramHeader}
use double_jit_vm.Elf.Zero.{Zero, Slice, slice_range, slice_from, add_checked}

pub record ElfFile : Type 0 where
  pub input : List ℕ
  pub header_part1 : HeaderPt1
  pub header_part2 : HeaderPt2

module _ (z : Zero) where
  -- The second part, by the class of the first.
  unfoldable pub read_part2 : List ℕ → Class → Outcome (ParseResult HeaderPt2)
  read_part2 input Class.thirty_two = do
    view ← slice_range input size_of_part1 (size_of_part1 + size_of_header32)
    h ← z.read_header32 view
    ok (success (HeaderPt2.header32 h))
  read_part2 input Class.sixty_four = do
    view ← slice_range input size_of_part1 (size_of_part1 + size_of_header64)
    h ← z.read_header64 view
    ok (success (HeaderPt2.header64 h))
  read_part2 input _ = ok (failure (ElfError.malformed "Invalid ELF Class"))

  abbrev pub with_parts : List ℕ → HeaderPt1 → ParseResult HeaderPt2 → ParseResult ElfFile
  with_parts input h1 (success h2) =
      success (record { input = input; header_part1 = h1; header_part2 = h2 })
  with_parts input h1 (failure e) = failure e

  unfoldable pub new : List ℕ → Outcome (ParseResult ElfFile)
  new input =
      if ltb (length input) size_of_part1
      then ok (failure (ElfError.malformed "File is shorter than the first ELF header"))
      else do
        view ← slice_range input 0 size_of_part1
        h1 ← z.read_part1 view
        h2 ← read_part2 input (get_class h1)
        ok (with_parts input h1 h2)

  -- The `match` on the class in `parse_section_header`.
  unfoldable pub read_section : Class → List ℕ → ℕ → ℕ → Outcome (ParseResult SectionHeader)
  read_section Class.thirty_two input start end = do
    view ← slice_range input start end
    h ← z.read_section32 view
    ok (success (SectionHeader.section_header32 h))
  read_section Class.sixty_four input start end = do
    view ← slice_range input start end
    h ← z.read_section64 view
    ok (success (SectionHeader.section_header64 h))
  read_section _ input start end = panic not_implemented

  unfoldable pub parse_section_header : ElfFile → ℕ → Outcome (ParseResult SectionHeader)
  parse_section_header file index = do
    start ←
        add_checked 64 (index * get_sh_entry_size file.header_part2)
          (get_sh_offset file.header_part2)
    end ← add_checked 64 start (get_sh_entry_size file.header_part2)
    read_section (get_class file.header_part1) file.input start end

  -- The `match` on the class in `parse_program_header`.
  unfoldable pub read_program : Class → List ℕ → ℕ → ℕ → Outcome (ParseResult ProgramHeader)
  read_program Class.thirty_two input start end = do
    view ← slice_range input start end
    h ← z.read_program32 view
    ok (success (ProgramHeader.program_header32 h))
  read_program Class.sixty_four input start end = do
    view ← slice_range input start end
    h ← z.read_program64 view
    ok (success (ProgramHeader.program_header64 h))
  read_program _ input start end = panic unreachable_code

  unfoldable pub parse_program_header : ElfFile → ℕ → Outcome (ParseResult ProgramHeader)
  parse_program_header file index =
      if ltb index (get_ph_count file.header_part2)
        && (ltb 0 (get_ph_offset file.header_part2) && ltb 0 (get_ph_entry_size file.header_part2))
      then (do
        start ←
            add_checked 64 (get_ph_offset file.header_part2)
              (index * get_ph_entry_size file.header_part2)
        end ← add_checked 64 start (get_ph_entry_size file.header_part2)
        read_program (get_class file.header_part1) file.input start end)
      else ok (failure (ElfError.malformed "No Program Header in the file."))

  -- From the header of the table of section names on.
  abbrev names_from : ElfFile → ParseResult SectionHeader → Outcome (ParseResult Slice)
  names_from file (success h) = do
    view ← slice_from file.input (Section.get_offset h)
    ok (success view)
  names_from file (failure e) = ok (failure e)

  unfoldable pub get_shstr_table : ElfFile → Outcome (ParseResult Slice)
  get_shstr_table file =
      parse_section_header file (get_sh_str_index file.header_part2) >>= names_from file

  abbrev name_at : ℕ → ParseResult Slice → Outcome (ParseResult (List ℕ))
  name_at index (success table) = do
    view ← slice_from table.bytes index
    name ← z.read_str (record view { place = table.place + index })
    ok (success name)
  name_at index (failure e) = ok (failure e)

  unfoldable pub get_shstr : ElfFile → ℕ → Outcome (ParseResult (List ℕ))
  get_shstr file index = get_shstr_table file >>= name_at index

  -- `SectionHeader::get_name`, whose `match` singles out `NOTE`.
  abbrev name_by_type :
      ElfFile → SectionHeader → ParseResult SectionHeaderType → Outcome (ParseResult (List ℕ))
  name_by_type file sh (success SectionHeaderType.note) =
      ok (failure (ElfError.malformed "Attempt to get name of null section"))
  name_by_type file sh (success _) = get_shstr file (Section.get_name_ sh)
  name_by_type file sh (failure e) = ok (failure e)

  unfoldable pub get_name : ElfFile → SectionHeader → Outcome (ParseResult (List ℕ))
  get_name file sh = name_by_type file sh (Section.get_type sh)
