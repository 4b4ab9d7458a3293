-- ===== src/Elf/Zero.antt =====
-- What src/frontend/elf.rs uses of the crate `zero`: views of a slice as a structure. The crate is not
-- part of the repository, so its functions are the fields of a record that every user takes. A view
-- may panic, on a slice that is too short or not aligned: it is given the slice with its place in the
-- file.
use double_jit_vm.Prelude.{
  ℕ, ◌+◌, ◌-◌, ◌^◌, List, length, take, drop, ltb, leb, ◌&&◌, if◌then◌else◌,
}
use double_jit_vm.Prelude.Outcome.{Outcome, ok, panic, out_of_range, arithmetic_overflow}
use double_jit_vm.Elf.Header.{HeaderPt1, HeaderPt2_}
use double_jit_vm.Elf.Section.{SectionHeader_}
use double_jit_vm.Elf.Program.{ProgramHeader32, ProgramHeader64}

pub record Slice : Type 0 where
  pub place : ℕ
  pub bytes : List ℕ

-- `Dynamic<P>`, with its `Tag_<P>`.
pub record Dynamic : Type 0 where
  pub tag : ℕ
  pub un : ℕ

-- `read` at the types that the source reads, `read_array` and `read_str`.
pub record Zero : Type 0 where
  pub read_part1 : Slice → Outcome HeaderPt1
  pub read_header32 : Slice → Outcome HeaderPt2_
  pub read_header64 : Slice → Outcome HeaderPt2_
  pub read_section32 : Slice → Outcome SectionHeader_
  pub read_section64 : Slice → Outcome SectionHeader_
  pub read_program32 : Slice → Outcome ProgramHeader32
  pub read_program64 : Slice → Outcome ProgramHeader64
  pub read_dynamic32 : Slice → Outcome (List Dynamic)
  pub read_dynamic64 : Slice → Outcome (List Dynamic)
  pub read_dynamic128 : Slice → Outcome (List Dynamic)
  pub read_str : Slice → Outcome (List ℕ)

-- `&input[start..end]` and `&input[start..]`.
unfoldable pub slice_range : List ℕ → ℕ → ℕ → Outcome Slice
slice_range input start end =
    if leb start end && leb end (length input)
    then ok (record { place = start; bytes = take (end - start) (drop start input) })
    else panic out_of_range

unfoldable pub slice_from : List ℕ → ℕ → Outcome Slice
slice_from input start =
    if leb start (length input)
    then ok (record { place = start; bytes = drop start input })
    else panic out_of_range

-- `+` on `w` bits, in a build that checks for overflow.
unfoldable pub add_checked : ℕ → ℕ → ℕ → Outcome ℕ
add_checked w a b = if ltb (a + b) (2 ^ w) then ok (a + b) else panic arithmetic_overflow
