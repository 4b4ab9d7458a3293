-- ===== src/Elf/Interpreter.antt =====
-- `ElfFile::parse_interpreter` of src/frontend/elf.rs.
pub mod Laws
use double_jit_vm.Prelude.{
  ℕ, suc, ◌-◌, Bool, true, false, List, Option, none, some, ◌==◌, not, ◌&&◌, if◌then◌else◌,
}
use double_jit_vm.Prelude.Outcome.{Outcome, ok, panic, ◌>>=◌, unwrap_err}
use double_jit_vm.Page.{ElfError, ParseResult, success, failure}
use double_jit_vm.Elf.Kinds.{ProgramHeaderType}
use double_jit_vm.Elf.Header.{get_ph_count}
use double_jit_vm.Elf.Program
use double_jit_vm.Elf.Program.{ProgramHeader, get_file_size}
use double_jit_vm.Elf.Zero.{Zero, slice_range, add_checked}
use double_jit_vm.Elf.File.{ElfFile}
use double_jit_vm.Elf.Iter.{program_iter, next_program, Flow, go, leave, for_each}
use double_jit_vm.Elf.Utf8.{is_utf8}

-- `== ProgramHeaderType::Interp` and `== ProgramHeaderType::Load`.
unfoldable pub is_interp : ProgramHeaderType → Bool
is_interp ProgramHeaderType.interp = true
is_interp _ = false

unfoldable pub is_load : ProgramHeaderType → Bool
is_load ProgramHeaderType.load = true
is_load _ = false

-- `from_utf8(..).unwrap()` on the path without its last byte.
unfoldable pub interpreter_path : List ℕ → ProgramHeader → Outcome (List ℕ)
interpreter_path input ph = do
  let count = get_file_size ph - 1
  end ← add_checked 64 (Program.get_offset ph) count
  view ← slice_range input (Program.get_offset ph) end
  if is_utf8 view.bytes then ok view.bytes else panic unwrap_err

-- The body of the loop.
unfoldable pub interpreter_turn : List ℕ → ProgramHeader → Outcome (Flow (List ℕ))
interpreter_turn input ph = do
  kind ← Program.get_type ph
  if is_interp kind && not (get_file_size ph == 0)
      then (do path ← interpreter_path input ph; ok (leave path))
      else ok go

-- What follows the loop.
unfoldable pub interpreter_result : Option (Flow (List ℕ)) → Option (ParseResult (List ℕ))
interpreter_result none = none
interpreter_result (some go) = some (failure (ElfError.malformed "No Interp"))
interpreter_result (some (leave path)) = some (success path)

-- The loop has one call of `next` for each header, and one more to see the end.
unfoldable pub parse_interpreter : Zero → ElfFile → Outcome (Option (ParseResult (List ℕ)))
parse_interpreter z file = do
  flow ←
      for_each (next_program z) (interpreter_turn file.input) (suc (get_ph_count file.header_part2))
        (program_iter file)
  ok (interpreter_result flow)
