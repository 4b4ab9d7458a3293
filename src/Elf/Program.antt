-- ===== src/Elf/Program.antt =====
-- The program headers of src/frontend/elf.rs.
use double_jit_vm.Prelude.{ℕ, ◌+◌, ◌&&◌, leb, ◌==◌, if◌then◌else◌}
use double_jit_vm.Prelude.Outcome.{Outcome, ok, panic, unwrap_err}
use double_jit_vm.Page.{ElfError, ParseResult, success, failure}
use double_jit_vm.Elf.Kinds.{ProgramHeaderType}

pub record ProgramHeader32 : Type 0 where
  pub type_ : ℕ
  pub offset : ℕ
  pub virtual_addr : ℕ
  pub physical_addr : ℕ
  pub file_size : ℕ
  pub mem_size : ℕ
  pub flags : ℕ
  pub align : ℕ

pub record ProgramHeader64 : Type 0 where
  pub type_ : ℕ
  pub flags : ℕ
  pub offset : ℕ
  pub virtual_addr : ℕ
  pub physical_addr : ℕ
  pub file_size : ℕ
  pub mem_size : ℕ
  pub align : ℕ

pub data ProgramHeader : Type 0 where
  program_header32 : ProgramHeader32 → ProgramHeader
  program_header64 : ProgramHeader64 → ProgramHeader

-- `TYPE_LOOS` to `TYPE_GNU_RELRO`.
abbrev pub type_loos : ℕ
type_loos = 0x60000000

abbrev pub type_hios : ℕ
type_hios = 0x6fffffff

abbrev pub type_loproc : ℕ
type_loproc = 0x70000000

abbrev pub type_hiproc : ℕ
type_hiproc = 0x7fffffff

abbrev pub type_gnu_relro : ℕ
type_gnu_relro = type_loos + 0x474e552

-- The `match` on `type_`, which the source repeats for both widths.
unfoldable pub program_type_of : ℕ → ParseResult ProgramHeaderType
program_type_of t =
    if t == 0
    then success ProgramHeaderType.null
    else if t == 1
    then success ProgramHeaderType.load
    else if t == 2
    then success ProgramHeaderType.dynamic
    else if t == 3
    then success ProgramHeaderType.interp
    else if t == 4
    then success ProgramHeaderType.note
    else if t == 5
    then success ProgramHeaderType.sh_lib
    else if t == 6
    then success ProgramHeaderType.phdr
    else if t == 7
    then success ProgramHeaderType.tls
    else if t == type_gnu_relro
    then success ProgramHeaderType.gnu_relro
    else if leb type_loos t && leb t type_hios
    then success (ProgramHeaderType.os_specific t)
    else if leb type_loproc t && leb t type_hiproc
    then success (ProgramHeaderType.processor_specific t)
    else failure (ElfError.malformed "Invalid type")

-- `ParseResult::unwrap`.
abbrev pub unwrap_result {ℓ} : {A : Type ℓ} → ParseResult A → Outcome A
unwrap_result (success a) = ok a
unwrap_result (failure e) = panic unwrap_err

unfoldable pub get_type_result : ProgramHeader → ParseResult ProgramHeaderType
get_type_result (ProgramHeader.program_header32 h) = program_type_of h.type_
get_type_result (ProgramHeader.program_header64 h) = program_type_of h.type_

-- `ProgramHeader::get_type`, with its `unwrap`.
unfoldable pub get_type : ProgramHeader → Outcome ProgramHeaderType
get_type ph = unwrap_result (get_type_result ph)

unfoldable pub get_align : ProgramHeader → ℕ
get_align (ProgramHeader.program_header32 h) = h.align
get_align (ProgramHeader.program_header64 h) = h.align

unfoldable pub get_virtual_addr : ProgramHeader → ℕ
get_virtual_addr (ProgramHeader.program_header32 h) = h.virtual_addr
get_virtual_addr (ProgramHeader.program_header64 h) = h.virtual_addr

unfoldable pub get_physical_addr : ProgramHeader → ℕ
get_physical_addr (ProgramHeader.program_header32 h) = h.physical_addr
get_physical_addr (ProgramHeader.program_header64 h) = h.physical_addr

unfoldable pub get_file_size : ProgramHeader → ℕ
get_file_size (ProgramHeader.program_header32 h) = h.file_size
get_file_size (ProgramHeader.program_header64 h) = h.file_size

unfoldable pub get_mem_size : ProgramHeader → ℕ
get_mem_size (ProgramHeader.program_header32 h) = h.mem_size
get_mem_size (ProgramHeader.program_header64 h) = h.mem_size

unfoldable pub get_offset : ProgramHeader → ℕ
get_offset (ProgramHeader.program_header32 h) = h.offset
get_offset (ProgramHeader.program_header64 h) = h.offset

-- The same two addresses again, under other names.
unfoldable pub physical_addr : ProgramHeader → ℕ
physical_addr (ProgramHeader.program_header32 h) = h.physical_addr
physical_addr (ProgramHeader.program_header64 h) = h.physical_addr

unfoldable pub virtual_addr : ProgramHeader → ℕ
virtual_addr (ProgramHeader.program_header32 h) = h.virtual_addr
virtual_addr (ProgramHeader.program_header64 h) = h.virtual_addr

unfoldable pub get_flags : ProgramHeader → ℕ
get_flags (ProgramHeader.program_header32 h) = h.flags
get_flags (ProgramHeader.program_header64 h) = h.flags
