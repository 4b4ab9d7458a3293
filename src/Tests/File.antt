-- ===== src/Tests/File.antt =====
-- A small executable for 64-bit RISC-V, and a reader that takes the fields from their little-endian
-- bytes in the order of the structures of src/frontend/elf.rs.
use double_jit_vm.Prelude.{
  ℕ, zero, suc, ◌+◌, ◌*◌, ◌/◌, ◌%◌, List, [], ◌∷◌, ◌++◌, length, take, drop, ltb, ◌==◌,
  if◌then◌else◌,
}
use double_jit_vm.Prelude.Outcome.{Outcome, ok, panic, out_of_range, assertion_failed}
use double_jit_vm.Elf.Header.{HeaderPt1, HeaderPt2_}
use double_jit_vm.Elf.Section.{SectionHeader_}
use double_jit_vm.Elf.Program.{ProgramHeader32, ProgramHeader64}
use double_jit_vm.Elf.Zero.{Zero, Slice, Dynamic}

abbrev number : List ℕ → ℕ
number [] = 0
number (b ∷ bytes) = b + 256 * number bytes

-- The field of `width` bytes at `offset`.
abbrev field : Slice → ℕ → ℕ → ℕ
field view offset width = number (take width (drop offset view.bytes))

-- The structure of a size and an alignment; the file itself lies aligned.
abbrev sized {ℓ} : {A : Type ℓ} → ℕ → ℕ → Slice → A → Outcome A
sized size align view a =
    if ltb (length view.bytes) size
    then panic out_of_range
    else if view.place % align == 0
    then ok a
    else panic assertion_failed

-- The bytes before the first zero.
abbrev string : List ℕ → List ℕ
string [] = []
string (zero ∷ bytes) = []
string (suc b ∷ bytes) = suc b ∷ string bytes

abbrev part1 : Slice → Outcome HeaderPt1
part1 view = sized 16 1 view (record {
  magic = take 4 view.bytes;
  class = field view 4 1;
  data_ = field view 5 1;
  version = field view 6 1;
  os_abi = field view 7 1;
  abi_version = field view 8 1;
  padding = take 7 (drop 9 view.bytes);
})

abbrev header32 : Slice → Outcome HeaderPt2_
header32 view = sized 36 4 view (record {
  type_ = field view 0 2;
  machine = field view 2 2;
  version = field view 4 4;
  entry_point = field view 8 4;
  ph_offset = field view 12 4;
  sh_offset = field view 16 4;
  flags = field view 20 4;
  header_size = field view 24 2;
  ph_entry_size = field view 26 2;
  ph_count = field view 28 2;
  sh_entry_size = field view 30 2;
  sh_count = field view 32 2;
  sh_str_index = field view 34 2;
})

abbrev header64 : Slice → Outcome HeaderPt2_
header64 view = sized 48 8 view (record {
  type_ = field view 0 2;
  machine = field view 2 2;
  version = field view 4 4;
  entry_point = field view 8 8;
  ph_offset = field view 16 8;
  sh_offset = field view 24 8;
  flags = field view 32 4;
  header_size = field view 36 2;
  ph_entry_size = field view 38 2;
  ph_count = field view 40 2;
  sh_entry_size = field view 42 2;
  sh_count = field view 44 2;
  sh_str_index = field view 46 2;
})

abbrev section32 : Slice → Outcome SectionHeader_
section32 view = sized 40 4 view (record {
  name = field view 0 4;
  section_type = field view 4 4;
  flags = field view 8 4;
  address = field view 12 4;
  offset = field view 16 4;
  size = field view 20 4;
  link = field view 24 4;
  info = field view 28 4;
  alignment = field view 32 4;
  entry_size = field view 36 4;
})

abbrev section64 : Slice → Outcome SectionHeader_
section64 view = sized 64 8 view (record {
  name = field view 0 4;
  section_type = field view 4 4;
  flags = field view 8 8;
  address = field view 16 8;
  offset = field view 24 8;
  size = field view 32 8;
  link = field view 40 4;
  info = field view 44 4;
  alignment = field view 48 8;
  entry_size = field view 56 8;
})

abbrev program32 : Slice → Outcome ProgramHeader32
program32 view = sized 32 4 view (record {
  type_ = field view 0 4;
  offset = field view 4 4;
  virtual_addr = field view 8 4;
  physical_addr = field view 12 4;
  file_size = field view 16 4;
  mem_size = field view 20 4;
  flags = field view 24 4;
  align = field view 28 4;
})

abbrev program64 : Slice → Outcome ProgramHeader64
program64 view = sized 56 8 view (record {
  type_ = field view 0 4;
  flags = field view 4 4;
  offset = field view 8 8;
  virtual_addr = field view 16 8;
  physical_addr = field view 24 8;
  file_size = field view 32 8;
  mem_size = field view 40 8;
  align = field view 48 8;
})

-- A table of entries of two numbers; one that is cut short is left out.
abbrev entries : ℕ → ℕ → List ℕ → List Dynamic
entries zero width bytes = []
entries (suc n) width bytes =
    record { tag = number (take width bytes); un = number (take width (drop width bytes)) }
    ∷ entries n width (drop (width + width) bytes)

abbrev pub little_endian : Zero
little_endian = record {
  read_part1 = part1;
  read_header32 = header32;
  read_header64 = header64;
  read_section32 = section32;
  read_section64 = section64;
  read_program32 = program32;
  read_program64 = program64;
  read_dynamic32 = λ view. ok (entries (length view.bytes / 8) 4 view.bytes);
  read_dynamic64 = λ view. ok (entries (length view.bytes / 16) 8 view.bytes);
  read_dynamic128 = λ view. ok (entries (length view.bytes / 32) 16 view.bytes);
  read_str = λ view. ok (string view.bytes);
}

-- The first part of the header: 64 bits, little-endian.
abbrev pub first_part : List ℕ
first_part = 127 ∷ 69 ∷ 76 ∷ 70 ∷ 2 ∷ 1 ∷ 1 ∷ 0 ∷ 0 ∷ 0 ∷ 0 ∷ 0 ∷ 0 ∷ 0 ∷ 0 ∷ 0 ∷ []

-- The second part: an executable for RISC-V, with two program headers at 64 and two section headers
-- at 216.
abbrev pub second_part : List ℕ
second_part =
    2 ∷ 0 ∷ 243 ∷ 0 ∷ 1 ∷ 0 ∷ 0 ∷ 0 ∷ 0 ∷ 0 ∷ 1 ∷ 0 ∷ 0 ∷ 0 ∷ 0 ∷ 0 ∷ 64 ∷ 0 ∷ 0 ∷ 0 ∷ 0 ∷ 0 ∷ 0 ∷ 0
    ∷ 216 ∷ 0 ∷ 0 ∷ 0 ∷ 0 ∷ 0 ∷ 0 ∷ 0 ∷ 5 ∷ 0 ∷ 0 ∷ 0 ∷ 64 ∷ 0 ∷ 56 ∷ 0 ∷ 2 ∷ 0 ∷ 64 ∷ 0 ∷ 2 ∷ 0 ∷ 1
    ∷ 0 ∷ []

-- The program header of the interpreter, and that of a segment of two pages.
abbrev pub interp_header : List ℕ
interp_header =
    3 ∷ 0 ∷ 0 ∷ 0 ∷ 4 ∷ 0 ∷ 0 ∷ 0 ∷ 176 ∷ 0 ∷ 0 ∷ 0 ∷ 0 ∷ 0 ∷ 0 ∷ 0 ∷ 176 ∷ 0 ∷ 1 ∷ 0 ∷ 0 ∷ 0 ∷ 0
    ∷ 0 ∷ 176 ∷ 0 ∷ 1 ∷ 0 ∷ 0 ∷ 0 ∷ 0 ∷ 0 ∷ 33 ∷ 0 ∷ 0 ∷ 0 ∷ 0 ∷ 0 ∷ 0 ∷ 0 ∷ 33 ∷ 0 ∷ 0 ∷ 0 ∷ 0 ∷ 0
    ∷ 0 ∷ 0 ∷ 0 ∷ 16 ∷ 0 ∷ 0 ∷ 0 ∷ 0 ∷ 0 ∷ 0 ∷ []

-- The segment: 33 bytes of the file and zeros after them, from 0x10000 to 0x12000.
abbrev pub load_header : List ℕ
load_header =
    1 ∷ 0 ∷ 0 ∷ 0 ∷ 5 ∷ 0 ∷ 0 ∷ 0 ∷ 176 ∷ 0 ∷ 0 ∷ 0 ∷ 0 ∷ 0 ∷ 0 ∷ 0 ∷ 0 ∷ 0 ∷ 1 ∷ 0 ∷ 0 ∷ 0 ∷ 0 ∷ 0
    ∷ 0 ∷ 0 ∷ 1 ∷ 0 ∷ 0 ∷ 0 ∷ 0 ∷ 0 ∷ 33 ∷ 0 ∷ 0 ∷ 0 ∷ 0 ∷ 0 ∷ 0 ∷ 0 ∷ 0 ∷ 32 ∷ 0 ∷ 0 ∷ 0 ∷ 0 ∷ 0
    ∷ 0 ∷ 0 ∷ 16 ∷ 0 ∷ 0 ∷ 0 ∷ 0 ∷ 0 ∷ 0 ∷ []

-- The name of the linker, with its zero.
abbrev pub interpreter : List ℕ
interpreter =
    47 ∷ 108 ∷ 105 ∷ 98 ∷ 47 ∷ 108 ∷ 100 ∷ 45 ∷ 108 ∷ 105 ∷ 110 ∷ 117 ∷ 120 ∷ 45 ∷ 114 ∷ 105 ∷ 115
    ∷ 99 ∷ 118 ∷ 54 ∷ 52 ∷ 45 ∷ 108 ∷ 112 ∷ 54 ∷ 52 ∷ 100 ∷ 46 ∷ 115 ∷ 111 ∷ 46 ∷ 49 ∷ 0 ∷ []

-- To the next multiple of 8.
abbrev pub gap : List ℕ
gap = 0 ∷ 0 ∷ 0 ∷ 0 ∷ 0 ∷ 0 ∷ 0 ∷ []

-- The null section, and a table of strings.
abbrev pub null_section : List ℕ
null_section =
    0 ∷ 0 ∷ 0 ∷ 0 ∷ 0 ∷ 0 ∷ 0 ∷ 0 ∷ 0 ∷ 0 ∷ 0 ∷ 0 ∷ 0 ∷ 0 ∷ 0 ∷ 0 ∷ 0 ∷ 0 ∷ 0 ∷ 0 ∷ 0 ∷ 0 ∷ 0 ∷ 0
    ∷ 0 ∷ 0 ∷ 0 ∷ 0 ∷ 0 ∷ 0 ∷ 0 ∷ 0 ∷ 0 ∷ 0 ∷ 0 ∷ 0 ∷ 0 ∷ 0 ∷ 0 ∷ 0 ∷ 0 ∷ 0 ∷ 0 ∷ 0 ∷ 0 ∷ 0 ∷ 0 ∷ 0
    ∷ 1 ∷ 0 ∷ 0 ∷ 0 ∷ 0 ∷ 0 ∷ 0 ∷ 0 ∷ 0 ∷ 0 ∷ 0 ∷ 0 ∷ 0 ∷ 0 ∷ 0 ∷ 0 ∷ []

-- The table of strings: the name of the linker again.
abbrev pub string_section : List ℕ
string_section =
    0 ∷ 0 ∷ 0 ∷ 0 ∷ 3 ∷ 0 ∷ 0 ∷ 0 ∷ 0 ∷ 0 ∷ 0 ∷ 0 ∷ 0 ∷ 0 ∷ 0 ∷ 0 ∷ 0 ∷ 0 ∷ 0 ∷ 0 ∷ 0 ∷ 0 ∷ 0 ∷ 0
    ∷ 176 ∷ 0 ∷ 0 ∷ 0 ∷ 0 ∷ 0 ∷ 0 ∷ 0 ∷ 33 ∷ 0 ∷ 0 ∷ 0 ∷ 0 ∷ 0 ∷ 0 ∷ 0 ∷ 0 ∷ 0 ∷ 0 ∷ 0 ∷ 0 ∷ 0 ∷ 0
    ∷ 0 ∷ 1 ∷ 0 ∷ 0 ∷ 0 ∷ 0 ∷ 0 ∷ 0 ∷ 0 ∷ 0 ∷ 0 ∷ 0 ∷ 0 ∷ 0 ∷ 0 ∷ 0 ∷ 0 ∷ []

abbrev pub executable_file : List ℕ
executable_file =
    first_part ++ second_part ++ interp_header ++ load_header ++ interpreter ++ gap ++ null_section
    ++ string_section
