-- ===== src/Elf/Header.antt =====
-- The ELF header of src/frontend/elf.rs: its two parts, and what their getters answer.
mod Codes
use double_jit_vm.Prelude.{ℕ, List}
use double_jit_vm.Elf.Kinds.{Class, Data, Version, OsAbi, FileType, Machine}
unfoldable pub use double_jit_vm.Elf.Header.Codes.{
  class_of, data_of, version_of, os_abi_of, type_of, machine_of,
}

pub record HeaderPt1 : Type 0 where
  pub magic : List ℕ
  pub class : ℕ
  pub data_ : ℕ
  pub version : ℕ
  pub os_abi : ℕ
  pub abi_version : ℕ
  pub padding : List ℕ

-- `HeaderPt2_<P>`, for 32 and for 64 bits.
pub record HeaderPt2_ : Type 0 where
  pub type_ : ℕ
  pub machine : ℕ
  pub version : ℕ
  pub entry_point : ℕ
  pub ph_offset : ℕ
  pub sh_offset : ℕ
  pub flags : ℕ
  pub header_size : ℕ
  pub ph_entry_size : ℕ
  pub ph_count : ℕ
  pub sh_entry_size : ℕ
  pub sh_count : ℕ
  pub sh_str_index : ℕ

pub data HeaderPt2 : Type 0 where
  header32 header64 : HeaderPt2_ → HeaderPt2

unfoldable pub get_class : HeaderPt1 → Class
get_class h = class_of h.class

unfoldable pub get_data : HeaderPt1 → Data
get_data h = data_of h.data_

unfoldable pub get_format_version : HeaderPt1 → Version
get_format_version h = version_of h.version

unfoldable pub get_os_abi : HeaderPt1 → OsAbi
get_os_abi h = os_abi_of h.os_abi

-- The sizes that `mem::size_of` gives under `repr(C)`.
abbrev pub size_of_part1 : ℕ
size_of_part1 = 16

abbrev pub size_of_header32 : ℕ
size_of_header32 = 36

abbrev pub size_of_header64 : ℕ
size_of_header64 = 48

unfoldable pub get_size : HeaderPt2 → ℕ
get_size (HeaderPt2.header32 h) = size_of_header32
get_size (HeaderPt2.header64 h) = size_of_header64

unfoldable pub get_type : HeaderPt2 → FileType
get_type (HeaderPt2.header32 h) = type_of h.type_
get_type (HeaderPt2.header64 h) = type_of h.type_

unfoldable pub get_machine : HeaderPt2 → Machine
get_machine (HeaderPt2.header32 h) = machine_of h.machine
get_machine (HeaderPt2.header64 h) = machine_of h.machine

unfoldable pub get_version : HeaderPt2 → ℕ
get_version (HeaderPt2.header32 h) = h.version
get_version (HeaderPt2.header64 h) = h.version

unfoldable pub get_entry_point : HeaderPt2 → ℕ
get_entry_point (HeaderPt2.header32 h) = h.entry_point
get_entry_point (HeaderPt2.header64 h) = h.entry_point

unfoldable pub get_ph_offset : HeaderPt2 → ℕ
get_ph_offset (HeaderPt2.header32 h) = h.ph_offset
get_ph_offset (HeaderPt2.header64 h) = h.ph_offset

unfoldable pub get_sh_offset : HeaderPt2 → ℕ
get_sh_offset (HeaderPt2.header32 h) = h.sh_offset
get_sh_offset (HeaderPt2.header64 h) = h.sh_offset

unfoldable pub get_flags : HeaderPt2 → ℕ
get_flags (HeaderPt2.header32 h) = h.flags
get_flags (HeaderPt2.header64 h) = h.flags

unfoldable pub get_header_size : HeaderPt2 → ℕ
get_header_size (HeaderPt2.header32 h) = h.header_size
get_header_size (HeaderPt2.header64 h) = h.header_size

unfoldable pub get_ph_entry_size : HeaderPt2 → ℕ
get_ph_entry_size (HeaderPt2.header32 h) = h.ph_entry_size
get_ph_entry_size (HeaderPt2.header64 h) = h.ph_entry_size

unfoldable pub get_ph_count : HeaderPt2 → ℕ
get_ph_count (HeaderPt2.header32 h) = h.ph_count
get_ph_count (HeaderPt2.header64 h) = h.ph_count

unfoldable pub get_sh_entry_size : HeaderPt2 → ℕ
get_sh_entry_size (HeaderPt2.header32 h) = h.sh_entry_size
get_sh_entry_size (HeaderPt2.header64 h) = h.sh_entry_size

unfoldable pub get_sh_count : HeaderPt2 → ℕ
get_sh_count (HeaderPt2.header32 h) = h.sh_count
get_sh_count (HeaderPt2.header64 h) = h.sh_count

unfoldable pub get_sh_str_index : HeaderPt2 → ℕ
get_sh_str_index (HeaderPt2.header32 h) = h.sh_str_index
get_sh_str_index (HeaderPt2.header64 h) = h.sh_str_index
