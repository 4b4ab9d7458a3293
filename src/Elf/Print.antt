-- ===== src/Elf/Print.antt =====
-- What src/frontend/elf.rs prints: the `Display` impls of the headers, line by line, and of the data of
-- a section.
use Prim.Native.String.{String}
use double_jit_vm.Prelude.{ℕ, List, [], ◌∷◌}
use double_jit_vm.Prelude.Outcome.{Outcome, ok, ◌>>=◌}
use double_jit_vm.Page.{ParseResult}
use double_jit_vm.Elf.Kinds.{FileType, Machine, SectionHeaderType, ProgramHeaderType}
use double_jit_vm.Elf.Header
use double_jit_vm.Elf.Header.{
  HeaderPt1, HeaderPt2, get_machine, get_version, get_entry_point, get_ph_offset, get_sh_offset,
  get_header_size, get_ph_entry_size, get_ph_count, get_sh_entry_size, get_sh_count,
  get_sh_str_index,
}
use double_jit_vm.Elf.Section
use double_jit_vm.Elf.Section.{SectionHeader, get_name_, get_address, get_link, get_entry_size}
use double_jit_vm.Elf.Program
use double_jit_vm.Elf.Program.{
  ProgramHeader, get_virtual_addr, get_physical_addr, get_file_size, get_mem_size,
}
use double_jit_vm.Elf.Content.{SectionData}

-- A value on a line, before the standard library writes it: a number in decimal or in hexadecimal,
-- bytes, or an enum by its `Debug`.
pub data Shown : Type 0 where
  number hexadecimal : ℕ → Shown
  bytes : List ℕ → Shown
  file_type : FileType → Shown
  machine : Machine → Shown
  section_type : ParseResult SectionHeaderType → Shown
  program_type : ProgramHeaderType → Shown

-- A line of an output: a title, or a label with the value behind it.
pub data Line : Type 0 where
  title : String → Line
  labelled : String → Shown → Line

unfoldable pub part1_lines : HeaderPt1 → List Line
part1_lines h =
    Line.title "ELF header:"
    ∷ Line.labelled "magic" (Shown.bytes h.magic)
    ∷ Line.labelled "class" (Shown.number h.class)
    ∷ Line.labelled "data" (Shown.number h.data_)
    ∷ Line.labelled "version" (Shown.number h.version)
    ∷ Line.labelled "os abi" (Shown.number h.os_abi)
    ∷ Line.labelled "abi version" (Shown.number h.abi_version)
    ∷ Line.labelled "padding" (Shown.bytes h.padding)
    ∷ []

unfoldable pub part2_lines : HeaderPt2 → List Line
part2_lines h =
    Line.labelled "type" (Shown.file_type (Header.get_type h))
    ∷ Line.labelled "machine" (Shown.machine (get_machine h))
    ∷ Line.labelled "version" (Shown.number (get_version h))
    ∷ Line.labelled "entry_point" (Shown.number (get_entry_point h))
    ∷ Line.labelled "ph_offset" (Shown.number (get_ph_offset h))
    ∷ Line.labelled "sh_offset" (Shown.number (get_sh_offset h))
    ∷ Line.labelled "flags" (Shown.number (Header.get_flags h))
    ∷ Line.labelled "header_size" (Shown.number (get_header_size h))
    ∷ Line.labelled "ph_entry_size" (Shown.number (get_ph_entry_size h))
    ∷ Line.labelled "ph_count" (Shown.number (get_ph_count h))
    ∷ Line.labelled "sh_entry_size" (Shown.number (get_sh_entry_size h))
    ∷ Line.labelled "sh_count" (Shown.number (get_sh_count h))
    ∷ Line.labelled "sh_str_index" (Shown.number (get_sh_str_index h))
    ∷ []

unfoldable pub section_lines : SectionHeader → List Line
section_lines h =
    Line.title "Section header:"
    ∷ Line.labelled "name" (Shown.number (get_name_ h))
    ∷ Line.labelled "type" (Shown.section_type (Section.get_type h))
    ∷ Line.labelled "flags" (Shown.number (Section.get_flags h))
    ∷ Line.labelled "address" (Shown.number (get_address h))
    ∷ Line.labelled "offset" (Shown.number (Section.get_offset h))
    ∷ Line.labelled "size" (Shown.number (Section.get_size h))
    ∷ Line.labelled "link" (Shown.number (get_link h))
    ∷ Line.labelled "align" (Shown.number (Section.get_align h))
    ∷ Line.labelled "entry size" (Shown.number (get_entry_size h))
    ∷ []

-- The type is read by `get_type`, which panics on a type that is not known.
unfoldable pub program_lines : ProgramHeader → Outcome (List Line)
program_lines h = do
  kind ← Program.get_type h
  ok (
      Line.title "Program header:"
      ∷ Line.labelled "type" (Shown.program_type kind)
      ∷ Line.labelled "flags" (Shown.number (Program.get_flags h))
      ∷ Line.labelled "offset" (Shown.hexadecimal (Program.get_offset h))
      ∷ Line.labelled "virtual address" (Shown.hexadecimal (get_virtual_addr h))
      ∷ Line.labelled "physical address" (Shown.hexadecimal (get_physical_addr h))
      ∷ Line.labelled "file size" (Shown.hexadecimal (get_file_size h))
      ∷ Line.labelled "memory size" (Shown.hexadecimal (get_mem_size h))
      ∷ Line.labelled "align" (Shown.hexadecimal (Program.get_align h))
      ∷ [])

-- `Display::fmt`, without the end of the line. The variants of 128 bits, `FnArray128` and `Note32` come
-- under the last arm.
unfoldable pub section_data_line : SectionData → String
section_data_line SectionData.empty = "SectionData::Empty"
section_data_line (SectionData.undefined _) = "SectionData::Undefined"
section_data_line (SectionData.group _ _) = "SectionData::Group"
section_data_line (SectionData.str_array _) = "SectionData::StrArray"
section_data_line (SectionData.fn_array32 _) = "SectionData::FnArray32"
section_data_line (SectionData.fn_array64 _) = "SectionData::FnArray64"
section_data_line (SectionData.symbol_table32 _) = "SectionData::SymbolTable32"
section_data_line (SectionData.symbol_table64 _) = "SectionData::SymbolTable64"
section_data_line (SectionData.dyn_symbol_table32 _) = "SectionData::DynSymbolTable32"
section_data_line (SectionData.dyn_symbol_table64 _) = "SectionData::DynSymbolTable64"
section_data_line (SectionData.sym_tab_sh_index _) = "SectionData::SymTabShIndex"
section_data_line (SectionData.note64 _ _) = "SectionData::Note64"
section_data_line (SectionData.rela32 _) = "SectionData::Rela32"
section_data_line (SectionData.rela64 _) = "SectionData::Rela64"
section_data_line (SectionData.rel32 _) = "SectionData::Rel32"
section_data_line (SectionData.rel64 _) = "SectionData::Rel64"
section_data_line (SectionData.dynamic32 _) = "SectionData::Dynamic32"
section_data_line (SectionData.dynamic64 _) = "SectionData::Dynamic64"
section_data_line (SectionData.hash_table _) = "SectionData::HashTable"
section_data_line _ = "SectionData::Unknown"
