-- ===== src/Elf/Section.antt =====
-- The section headers of src/frontend/elf.rs.
use double_jit_vm.Prelude.{ℕ, ◌&&◌, leb, ◌==◌, if◌then◌else◌}
use double_jit_vm.Page.{ElfError, ParseResult, success, failure}
use double_jit_vm.Elf.Kinds.{SectionHeaderType}

-- `SectionHeader_<P>`, for 32 and for 64 bits.
pub record SectionHeader_ : Type 0 where
  pub name : ℕ
  pub section_type : ℕ
  pub flags : ℕ
  pub address : ℕ
  pub offset : ℕ
  pub size : ℕ
  pub link : ℕ
  pub info : ℕ
  pub alignment : ℕ
  pub entry_size : ℕ

pub data SectionHeader : Type 0 where
  section_header32 section_header64 : SectionHeader_ → SectionHeader

-- `SHT_LOOS` to `SHT_HIUSER`.
abbrev pub sht_loos : ℕ
sht_loos = 0x60000000

abbrev pub sht_hios : ℕ
sht_hios = 0x6fffffff

abbrev pub sht_loproc : ℕ
sht_loproc = 0x70000000

abbrev pub sht_hiproc : ℕ
sht_hiproc = 0x7fffffff

abbrev pub sht_louser : ℕ
sht_louser = 0x80000000

abbrev pub sht_hiuser : ℕ
sht_hiuser = 0xffffffff

-- The `match` on `section_type`, which the source repeats for both widths.
unfoldable pub section_type_of : ℕ → ParseResult SectionHeaderType
section_type_of st =
    if st == 0
    then success SectionHeaderType.section_null
    else if st == 1
    then success SectionHeaderType.program_bits
    else if st == 2
    then success SectionHeaderType.symbol_table
    else if st == 3
    then success SectionHeaderType.string_table
    else if st == 4
    then success SectionHeaderType.relocation_addend_table
    else if st == 5
    then success SectionHeaderType.hash_table
    else if st == 6
    then success SectionHeaderType.dynamic_linking_table
    else if st == 7
    then success SectionHeaderType.note
    else if st == 8
    then success SectionHeaderType.no_bits
    else if st == 9
    then success SectionHeaderType.relocation_table
    else if st == 10
    then success SectionHeaderType.shared_library
    else if st == 11
    then success SectionHeaderType.dynamic_symbol_table
    else if st == 14
    then success SectionHeaderType.initialize_array
    else if st == 15
    then success SectionHeaderType.termination_array
    else if st == 16
    then success SectionHeaderType.pre_initialize_array
    else if st == 17
    then success SectionHeaderType.group
    else if st == 18
    then success SectionHeaderType.sym_tab_sh_index
    else if leb sht_loos st && leb st sht_hios
    then success (SectionHeaderType.os_specific st)
    else if leb sht_loproc st && leb st sht_hiproc
    then success (SectionHeaderType.processor_specific st)
    else if leb sht_louser st && leb st sht_hiuser
    then success (SectionHeaderType.user st)
    else failure (ElfError.malformed "Invalid sh type")

unfoldable pub get_section_type : SectionHeader → ParseResult SectionHeaderType
get_section_type (SectionHeader.section_header32 h) = section_type_of h.section_type
get_section_type (SectionHeader.section_header64 h) = section_type_of h.section_type

unfoldable pub get_type : SectionHeader → ParseResult SectionHeaderType
get_type sh = get_section_type sh

unfoldable pub get_flags : SectionHeader → ℕ
get_flags (SectionHeader.section_header32 h) = h.flags
get_flags (SectionHeader.section_header64 h) = h.flags

unfoldable pub get_name_ : SectionHeader → ℕ
get_name_ (SectionHeader.section_header32 h) = h.name
get_name_ (SectionHeader.section_header64 h) = h.name

unfoldable pub get_address : SectionHeader → ℕ
get_address (SectionHeader.section_header32 h) = h.address
get_address (SectionHeader.section_header64 h) = h.address

unfoldable pub get_align : SectionHeader → ℕ
get_align (SectionHeader.section_header32 h) = h.alignment
get_align (SectionHeader.section_header64 h) = h.alignment

unfoldable pub get_entry_size : SectionHeader → ℕ
get_entry_size (SectionHeader.section_header32 h) = h.entry_size
get_entry_size (SectionHeader.section_header64 h) = h.entry_size

unfoldable pub get_offset : SectionHeader → ℕ
get_offset (SectionHeader.section_header32 h) = h.offset
get_offset (SectionHeader.section_header64 h) = h.offset

unfoldable pub get_size : SectionHeader → ℕ
get_size (SectionHeader.section_header32 h) = h.size
get_size (SectionHeader.section_header64 h) = h.size

unfoldable pub get_link : SectionHeader → ℕ
get_link (SectionHeader.section_header32 h) = h.link
get_link (SectionHeader.section_header64 h) = h.link

unfoldable pub get_info : SectionHeader → ℕ
get_info (SectionHeader.section_header32 h) = h.info
get_info (SectionHeader.section_header64 h) = h.info
