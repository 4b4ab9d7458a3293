-- ===== src/Elf/Data.antt =====
-- `get_data` and `raw_data` of the section headers and of the program headers of src/frontend/elf.rs.
use double_jit_vm.Prelude.{ℕ, Bool, true, false, if◌then◌else◌}
use double_jit_vm.Prelude.Outcome.{
  Outcome, ok, panic, ◌>>=◌, assertion_failed, not_implemented, unreachable_code,
}
use double_jit_vm.Page.{ParseResult, success, failure}
use double_jit_vm.Elf.Kinds.{Class, SectionHeaderType, ProgramHeaderType}
use double_jit_vm.Elf.Header.{get_class}
use double_jit_vm.Elf.Section
use double_jit_vm.Elf.Section.{SectionHeader}
use double_jit_vm.Elf.Program
use double_jit_vm.Elf.Program.{ProgramHeader, get_type_result, get_file_size, unwrap_result}
use double_jit_vm.Elf.Zero.{Zero, Slice, slice_range, add_checked}
use double_jit_vm.Elf.Content.{SectionData, SegmentData}
use double_jit_vm.Elf.File.{ElfFile}

-- The first pattern of the `match`, `_ | SectionNull | NoBits`, takes every type.
unfoldable pub section_data : ParseResult SectionHeaderType → ParseResult SectionData
section_data (success typ) = success SectionData.empty
section_data (failure e) = failure e

unfoldable pub get_section_data : SectionHeader → ParseResult SectionData
get_section_data sh = section_data (Section.get_type sh)

-- `assert_ne!(.., SectionNull)`.
abbrev pub is_null : SectionHeaderType → Bool
is_null SectionHeaderType.section_null = true
is_null _ = false

unfoldable pub section_raw_data : ElfFile → SectionHeader → Outcome Slice
section_raw_data file sh = do
  kind ← unwrap_result (Section.get_section_type sh)
  if is_null kind then panic assertion_failed else (do
    end ← add_checked 64 (Section.get_offset sh) (Section.get_size sh)
    slice_range file.input (Section.get_offset sh) end)

-- The sum `offset + file_size` is taken on 32 or on 64 bits, by the header.
unfoldable pub segment_end : ProgramHeader → Outcome ℕ
segment_end (ProgramHeader.program_header32 h) = add_checked 32 h.offset h.file_size
segment_end (ProgramHeader.program_header64 h) = add_checked 64 h.offset h.file_size

-- `assert!(self.get_type().map(|typ| typ != Null).unwrap_or(false))`.
abbrev pub is_segment : ParseResult ProgramHeaderType → Bool
is_segment (success ProgramHeaderType.null) = false
is_segment (success _) = true
is_segment (failure e) = false

unfoldable pub segment_raw_data : ElfFile → ProgramHeader → Outcome Slice
segment_raw_data file ph =
    if is_segment (get_type_result ph)
    then (do end ← segment_end ph; slice_range file.input (Program.get_offset ph) end)
    else panic assertion_failed

module _ (z : Zero) where
  unfoldable pub dynamic_data : Class → Slice → Outcome SegmentData
  dynamic_data Class.thirty_two view = do
    entries ← z.read_dynamic32 view
    ok (SegmentData.dynamic32 entries)
  dynamic_data Class.sixty_four view = do
    entries ← z.read_dynamic64 view
    ok (SegmentData.dynamic64 entries)
  dynamic_data Class.one_twenty_eight view = do
    entries ← z.read_dynamic128 view
    ok (SegmentData.dynamic128 entries)
  dynamic_data _ view = panic unreachable_code

  -- The closure that `get_data` maps over the type.
  unfoldable pub segment_data :
      ElfFile → ProgramHeader → ParseResult ProgramHeaderType → Outcome (ParseResult SegmentData)
  segment_data file ph (failure e) = ok (failure e)
  segment_data file ph (success ProgramHeaderType.null) = ok (success SegmentData.empty)
  segment_data file ph (success ProgramHeaderType.dynamic) = do
    view ← segment_raw_data file ph
    data_ ← dynamic_data (get_class file.header_part1) view
    ok (success data_)
  segment_data file ph (success ProgramHeaderType.note) = panic not_implemented
  segment_data file ph (success _) = do
    view ← segment_raw_data file ph
    ok (success (SegmentData.undefined view.bytes))

  -- The result of the closure is thrown away, and `todo!()` follows.
  unfoldable pub get_segment_data : ElfFile → ProgramHeader → Outcome (ParseResult SegmentData)
  get_segment_data file ph = do
    ignored ← segment_data file ph (get_type_result ph)
    panic not_implemented

  -- `ProgramHeader::get_data`, with its `unwrap`.
  unfoldable pub segment_data_unwrapped : ElfFile → ProgramHeader → Outcome SegmentData
  segment_data_unwrapped file ph = get_segment_data file ph >>= unwrap_result
