-- ===== src/Loader.antt =====
-- `Binary::parse` of src/frontend/binary.rs: the checks on the header, and the walks over the program
-- headers and the sections. `Loader.Laws` has what it guarantees.
mod Inversion
pub mod Segments
pub mod Laws
pub mod Total
pub mod Width
pub mod Decoding
use double_jit_vm.Prelude.{
  ℕ, suc, ◌+◌, ◌^◌, Bool, true, false, List, [], ◌∷◌, Option, none, some, ltb, ◌==◌, ◌&&◌, not,
  if◌then◌else◌,
}
use double_jit_vm.Prelude.Outcome.{
  Outcome, ok, panic, ◌>>=◌, unwrap_err, invalid_segment, arithmetic_overflow,
}
use double_jit_vm.Page.{
  Page, ElfError, ParseResult, success, failure, address_limit, valid_page_range_index_and_offset,
}
use double_jit_vm.Elf.Kinds.{Class, Data, FileType, Machine}
use double_jit_vm.Elf.Header.{
  get_class, get_data, get_type, get_machine, get_ph_count, get_sh_count,
}
use double_jit_vm.Elf.Section.{SectionHeader}
use double_jit_vm.Elf.Program
use double_jit_vm.Elf.Program.{ProgramHeader, get_virtual_addr, get_mem_size, get_file_size}
use double_jit_vm.Elf.Zero.{Zero, slice_range}
use double_jit_vm.Elf.File.{ElfFile, new}
use double_jit_vm.Elf.Iter.{
  program_iter, section_iter, next_program, next_section, Flow, go, leave, for_each,
}
use double_jit_vm.Elf.Interpreter.{is_load, parse_interpreter}
use double_jit_vm.Elf.Content.{SectionData}
use double_jit_vm.Elf.Data.{get_section_data}

pub record Binary : Type 0 where
  pub pages : List (Option Page)

-- The static `BIT_LENGTH` after the call, and how the call ends; `none` means cut off.
pub record Parsed : Type 0 where
  pub bit_length : ℕ
  pub result : Outcome (Option (ParseResult Binary))

-- `!=` of `parse_not_meet!` against the constant of each check.
abbrev pub is_little_endian : Data → Bool
is_little_endian Data.little_endian = true
is_little_endian _ = false

abbrev pub is_executable : FileType → Bool
is_executable FileType.executable = true
is_executable _ = false

abbrev pub is_riscv : Machine → Bool
is_riscv Machine.riscv = true
is_riscv _ = false

-- "/lib/ld-linux-riscv64-lp64d.so.1"
abbrev pub linker_path : List ℕ
linker_path =
    47 ∷ 108 ∷ 105 ∷ 98 ∷ 47 ∷ 108 ∷ 100 ∷ 45 ∷ 108 ∷ 105 ∷ 110 ∷ 117 ∷ 120 ∷ 45 ∷ 114 ∷ 105 ∷ 115
    ∷ 99 ∷ 118 ∷ 54 ∷ 52 ∷ 45 ∷ 108 ∷ 112 ∷ 54 ∷ 52 ∷ 100 ∷ 46 ∷ 115 ∷ 111 ∷ 46 ∷ 49 ∷ []

abbrev pub bytes_eq : List ℕ → List ℕ → Bool
bytes_eq [] [] = true
bytes_eq (a ∷ as_) (b ∷ bs) = a == b && bytes_eq as_ bs
bytes_eq _ _ = false

-- `checked_add(..).unwrap_or_else(|| panic!(..))`.
unfoldable pub checked_or_panic : ℕ → ℕ → Outcome ℕ
checked_or_panic a b = if ltb (a + b) (2 ^ 64) then ok (a + b) else panic invalid_segment

-- The range of pages of a segment that is not empty; the pages themselves are not used.
abbrev range_flow {ℓ} : {A : Type ℓ} → ParseResult A → Flow ElfError
range_flow (success r) = go
range_flow (failure e) = leave e

unfoldable pub map_range : ℕ → ℕ → Outcome (Flow ElfError)
map_range start end =
    if ltb address_limit end
    then panic invalid_segment
    else if ltb start end
    then ok (range_flow (valid_page_range_index_and_offset (record { start = start; end = end })))
    else ok go

-- The body of the loop over the program headers; a `leave` is the `?`.
unfoldable pub segment_turn : List ℕ → ProgramHeader → Outcome (Flow ElfError)
segment_turn bytes ph = do
  kind ← Program.get_type ph
  if is_load kind
      then (do
        end ← checked_or_panic (get_virtual_addr ph) (get_mem_size ph)
        bytes_end ← checked_or_panic (Program.get_offset ph) (get_file_size ph)
        view ← slice_range bytes (Program.get_offset ph) bytes_end
        map_range (get_virtual_addr ph) end)
      else ok go

-- The body of the loop over the sections prints what `get_data` gives.
abbrev print_flow : ParseResult SectionData → Flow ElfError
print_flow d = go

unfoldable pub section_turn : SectionHeader → Outcome (Flow ElfError)
section_turn sh = ok (print_flow (get_section_data sh))

-- What follows the loop over the sections: `Ok(Self { pages })`, where nothing was put into `pages`.
abbrev pub binary_of : Option (Flow ElfError) → Option (ParseResult Binary)
binary_of none = none
binary_of (some go) = some (success (record { pages = [] }))
binary_of (some (leave e)) = some (failure e)

module _ (z : Zero) where
  -- From the sections on: `get_sh_count() - 1` is on `u16`, and the first section is passed over.
  unfoldable pub walk_sections : ElfFile → Outcome (Option (ParseResult Binary))
  walk_sections elf = if get_sh_count elf.header_part2 == 0 then panic arithmetic_overflow else do
    first ← next_section z (section_iter elf)
    flow ← for_each (next_section z) section_turn (suc (get_sh_count elf.header_part2)) first.1
    ok (binary_of flow)

  abbrev pub after_segments :
      ElfFile → Option (Flow ElfError) → Outcome (Option (ParseResult Binary))
  after_segments elf none = ok none
  after_segments elf (some go) = walk_sections elf
  after_segments elf (some (leave e)) = ok (some (failure e))

module _ (z : Zero) (bytes : List ℕ) where
  unfoldable pub walk_segments : ElfFile → Outcome (Option (ParseResult Binary))
  walk_segments elf = do
    flow ←
        for_each (next_program z) (segment_turn bytes) (suc (get_ph_count elf.header_part2))
          (program_iter elf)
    after_segments z elf flow

  -- `elf.parse_interpreter().unwrap()` and the comparison of its result.
  unfoldable pub check_interpreter :
      ElfFile → Option (ParseResult (List ℕ)) → Outcome (Option (ParseResult Binary))
  check_interpreter elf none = ok none
  check_interpreter elf (some (failure e)) = panic unwrap_err
  check_interpreter elf (some (success path)) =
      if bytes_eq path linker_path
      then walk_segments elf
      else ok (some (failure (ElfError.not_meet "Not RISCV Dynamatic Linked")))

  -- The four `parse_not_meet!`.
  unfoldable pub check_header : ElfFile → Outcome (Option (ParseResult Binary))
  check_header elf =
      if not (is_little_endian (get_data elf.header_part1))
      then ok (some (failure (ElfError.not_meet "Not little endian Binary")))
      else if not (is_executable (get_type elf.header_part2))
      then ok (some (failure (ElfError.not_meet "Not Executable")))
      else if not (is_riscv (get_machine elf.header_part2))
      then ok (some (failure (ElfError.not_meet "Not RISCV Binary")))
      else (parse_interpreter z elf >>= check_interpreter elf)

  -- The `match` on the class, which sets `BIT_LENGTH`.
  unfoldable pub set_bit_length : ℕ → ElfFile → Class → Parsed
  set_bit_length before elf Class.thirty_two = record { bit_length = 0; result = check_header elf }
  set_bit_length before elf Class.sixty_four = record { bit_length = 1; result = check_header elf }
  set_bit_length before elf Class.one_twenty_eight = record {
    bit_length = 2;
    result = check_header elf;
  }
  set_bit_length before elf _ = record {
    bit_length = before;
    result = ok (some (failure (ElfError.not_meet "Not expected Class Binary")));
  }

  -- `ElfFile::new(bytes).unwrap()`.
  unfoldable pub opened : ℕ → Outcome (ParseResult ElfFile) → Parsed
  opened before (panic p) = record { bit_length = before; result = panic p }
  opened before (ok (failure e)) = record { bit_length = before; result = panic unwrap_err }
  opened before (ok (success elf)) = set_bit_length before elf (get_class elf.header_part1)

  unfoldable pub parse : ℕ → Parsed
  parse before = opened before (new z bytes)
