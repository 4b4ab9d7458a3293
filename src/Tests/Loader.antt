-- ===== src/Tests/Loader.antt =====
-- The theorems on the ELF reader and on `Binary::parse`, at a small executable.
use double_jit_vm.Prelude.{
  ◌%◌, ◌/◌, false, ◌<◌, ◌≡◌, ap, ◌≢◌, ◌⊎◌, refl, suc, ◌++◌, [], ◌∷◌, none, some, arith,
}
use double_jit_vm.Prelude.Outcome.{ok, ◌>>=◌}
use double_jit_vm.Page.{
  success, valid_page_range_index_and_offset, valid_page_index_and_offset, page_index_and_offset,
}
use double_jit_vm.Elf.Kinds.{Class, Data, FileType, Machine, SectionHeaderType, ProgramHeaderType}
use double_jit_vm.Elf.Header.{
  HeaderPt1, HeaderPt2_, HeaderPt2, get_class, class_of, get_data, data_of, get_type, type_of,
  get_machine, machine_of, get_ph_count, get_sh_count, get_ph_offset, get_ph_entry_size,
  get_sh_offset, get_sh_entry_size, get_sh_str_index,
}
use double_jit_vm.Elf.Section
use double_jit_vm.Elf.Section.{SectionHeader, get_section_type, section_type_of, get_size}
use double_jit_vm.Elf.Data.{section_raw_data}
use double_jit_vm.Elf.Views.{IsView, section_raw_data-IsView}
use double_jit_vm.Elf.Opened.{IsOpened, new-IsOpened}
use double_jit_vm.Elf.Iter.Visit.{visit, for_each-headers}
use double_jit_vm.Decode.Parse
use double_jit_vm.Isa.Compressed.{CInstr, IsAvailable, encode, expand}
use double_jit_vm.Loader.Decoding.{width_of, config_after, parse-encode}
use double_jit_vm.Loader.Laws.{parse-accepts, parse-Fits}
use double_jit_vm.Loader.Segments.{Fits}
use double_jit_vm.Loader.Total.{parse-ne-none}
use double_jit_vm.Loader.Width.{parse-bit_length}
use double_jit_vm.Elf.Program
use double_jit_vm.Elf.Program.{
  ProgramHeader, ProgramHeader64, get_type_result, program_type_of, get_file_size, get_virtual_addr,
  get_mem_size,
}
use double_jit_vm.Elf.Zero.{slice_range, slice_from, add_checked}
use double_jit_vm.Elf.File.{
  ElfFile, new, read_part2, parse_program_header, parse_section_header, read_program, read_section,
  get_shstr, get_shstr_table, get_name,
}
use double_jit_vm.Elf.Iter.{program_iter, section_iter, next_program, next_section, for_each}
use double_jit_vm.Elf.Utf8.{is_utf8, is_utf8_from, continuation}
use double_jit_vm.Elf.Interpreter.{
  is_interp, is_load, interpreter_turn, interpreter_path, interpreter_result, parse_interpreter,
}
use double_jit_vm.Elf.Interpreter.Laws.{IsInterpreter, parse_interpreter-success}
use double_jit_vm.Loader.{
  Binary, parse, opened, set_bit_length, check_header, check_interpreter, walk_segments,
  segment_turn, walk_sections, section_turn, checked_or_panic, map_range, linker_path,
}
use double_jit_vm.Tests.File.{little_endian, executable_file}

abbrev header_part1 : HeaderPt1
header_part1 = record {
  magic = 127 ∷ 69 ∷ 76 ∷ 70 ∷ [];
  class = 2;
  data_ = 1;
  version = 1;
  os_abi = 0;
  abi_version = 0;
  padding = 0 ∷ 0 ∷ 0 ∷ 0 ∷ 0 ∷ 0 ∷ 0 ∷ [];
}

abbrev header_part2 : HeaderPt2_
header_part2 = record {
  type_ = 2;
  machine = 0xf3;
  version = 1;
  entry_point = 0x10000;
  ph_offset = 64;
  sh_offset = 216;
  flags = 5;
  header_size = 64;
  ph_entry_size = 56;
  ph_count = 2;
  sh_entry_size = 64;
  sh_count = 2;
  sh_str_index = 1;
}

abbrev executable : ElfFile
executable = record {
  input = executable_file;
  header_part1 = header_part1;
  header_part2 = HeaderPt2.header64 header_part2;
}

executable-new : new little_endian executable_file ≡ ok (success executable)
unfolding new slice_range read_part2 get_class class_of
executable-new = refl

-- The parse of it, after a program of 32 bits.
executable-parse :
    (parse little_endian executable_file 0).result ≡ ok (some (success (record { pages = [] })))
unfolding parse opened new slice_range read_part2 get_class class_of set_bit_length check_header
    get_data data_of get_type type_of get_machine machine_of parse_interpreter interpreter_result
    get_ph_count get_sh_count program_iter section_iter next_program next_section for_each
    interpreter_turn interpreter_path is_interp is_load Program.get_type get_type_result
    program_type_of get_file_size Program.get_offset add_checked check_interpreter walk_segments
    segment_turn walk_sections section_turn parse_program_header parse_section_header read_program
    read_section get_ph_offset get_ph_entry_size get_sh_offset get_sh_entry_size is_utf8
    is_utf8_from continuation checked_or_panic get_virtual_addr get_mem_size map_range
    valid_page_range_index_and_offset valid_page_index_and_offset page_index_and_offset
executable-parse = refl

abbrev loaded : Binary
loaded = record { pages = [] }

parse-accepts_example :
    (get_data executable.header_part1 ≡ Data.little_endian)
    × (get_type executable.header_part2 ≡ FileType.executable)
    × (get_machine executable.header_part2 ≡ Machine.riscv)
    × (parse_interpreter little_endian executable ≡ ok (some (success linker_path)))
    × (loaded.pages ≡ [])
parse-accepts_example =
    parse-accepts little_endian executable_file 0 executable loaded executable-new executable-parse

executable-interpreter :
    parse_interpreter little_endian executable ≡ ok (some (success linker_path))
executable-interpreter =
    (parse-accepts little_endian executable_file 0 executable loaded executable-new
      executable-parse).3

parse_interpreter-success_example : IsInterpreter little_endian executable linker_path
parse_interpreter-success_example =
    parse_interpreter-success little_endian executable linker_path executable-interpreter

abbrev load_header : ProgramHeader
load_header = ProgramHeader.program_header64 (record {
  type_ = 1;
  flags = 5;
  offset = 176;
  virtual_addr = 0x10000;
  physical_addr = 0x10000;
  file_size = 33;
  mem_size = 0x2000;
  align = 0x1000;
})

load_header-parsed : parse_program_header little_endian executable 1 ≡ ok (success load_header)
unfolding parse_program_header get_ph_count get_ph_offset get_ph_entry_size add_checked read_program
    get_class class_of slice_range
load_header-parsed = refl

load_header-load : Program.get_type load_header ≡ ok ProgramHeaderType.load
unfolding Program.get_type get_type_result program_type_of
load_header-load = refl

two_programs : 1 < get_ph_count executable.header_part2
unfolding get_ph_count
two_programs = omega arith

parse-Fits_example : Fits executable_file load_header
parse-Fits_example =
    parse-Fits little_endian executable_file 0 executable loaded 1 load_header executable-new
      executable-parse two_programs load_header-parsed load_header-load

parse-ne-none_example : (parse little_endian executable_file 0).result ≢ ok none
parse-ne-none_example = parse-ne-none little_endian executable_file 0

parse-bit_length_example :
    ((get_class executable.header_part1 ≡ Class.thirty_two)
      × ((parse little_endian executable_file 0).bit_length ≡ 0))
    ⊎ ((get_class executable.header_part1 ≡ Class.sixty_four)
        × ((parse little_endian executable_file 0).bit_length ≡ 1))
parse-bit_length_example =
    parse-bit_length little_endian executable_file 0 executable executable-new

new-IsOpened_example : IsOpened executable_file executable
new-IsOpened_example = new-IsOpened little_endian executable_file executable executable-new

for_each-headers_example :
    (for_each
        (next_program little_endian)
        (segment_turn executable_file)
        (suc (get_ph_count executable.header_part2))
        (program_iter executable)
      ≡ (visit
            (parse_program_header little_endian executable)
            (segment_turn executable_file)
            (get_ph_count executable.header_part2)
            0
          >>= λ flow. ok (some flow)))
    × (for_each
          (next_section little_endian)
          section_turn
          (suc (get_sh_count executable.header_part2))
          (section_iter executable)
        ≡ (visit
              (parse_section_header little_endian executable)
              section_turn
              (get_sh_count executable.header_part2)
              0
            >>= λ flow. ok (some flow)))
for_each-headers_example =
    for_each-headers little_endian executable (segment_turn executable_file) section_turn

abbrev string_table : SectionHeader
string_table = SectionHeader.section_header64 (record {
  name = 0;
  section_type = 3;
  flags = 0;
  address = 0;
  offset = 176;
  size = 33;
  link = 0;
  info = 0;
  alignment = 1;
  entry_size = 0;
})

string_table-raw_data :
    section_raw_data executable string_table
    ≡ ok (record { place = 176; bytes = linker_path ++ 0 ∷ [] })
unfolding section_raw_data get_section_type section_type_of add_checked slice_range
    Section.get_offset get_size
string_table-raw_data = refl

section_raw_data-IsView_example :
    IsView executable_file
      (Section.get_offset string_table)
      (get_size string_table)
      (record { place = 176; bytes = linker_path ++ 0 ∷ [] })
    × ((kind : SectionHeaderType) × (get_section_type string_table ≡ success kind)
        × (kind ≢ SectionHeaderType.section_null))
section_raw_data-IsView_example =
    section_raw_data-IsView executable string_table _ string_table-raw_data

-- The name of a section is the string at its place in the table.
string_table-name : get_name little_endian executable string_table ≡ ok (success linker_path)
unfolding get_name Section.get_type get_section_type section_type_of get_shstr get_shstr_table
    parse_section_header get_sh_str_index get_sh_entry_size get_sh_offset add_checked read_section
    get_class class_of slice_range slice_from Section.get_offset Section.get_name_
string_table-name = refl

executable-wide : get_class executable.header_part1 ≡ Class.sixty_four
unfolding get_class class_of
executable-wide = refl

executable-width : IsAvailable (width_of (get_class executable.header_part1)) (CInstr.ld 11 8 192)
executable-width = ap width_of executable-wide

-- After the parse: C.LD of x11 from 192 behind x8.
parse-encode_example :
    Parse.parse
      (config_after little_endian executable_file 0 false)
      (encode (CInstr.ld 11 8 192) % 256 ∷ encode (CInstr.ld 11 8 192) / 256 ∷ 0x13 ∷ 0 ∷ [])
    ≡ ok (expand (config_after little_endian executable_file 0 false) (CInstr.ld 11 8 192))
parse-encode_example =
    parse-encode little_endian executable_file 0 executable false (CInstr.ld 11 8 192) 0x13 0 []
      executable-new executable-width
      ((omega arith, omega arith), (omega arith, omega arith), omega arith, omega arith)
