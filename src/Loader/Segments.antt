-- ===== src/Loader/Segments.antt =====
-- A segment that `Binary::parse` of src/frontend/binary.rs goes on from.
use double_jit_vm.Prelude.{ℕ, ◌+◌, ◌<◌, ◌≤◌, ◌≡◌, ◌⊎◌, List, length, arith}
use double_jit_vm.Prelude.Outcome.{ok, >>=-eq-ok}
use double_jit_vm.Page.{address_limit}
use double_jit_vm.Page.Address.{valid_page_range_index_and_offset_lem}
use double_jit_vm.Elf.Kinds.{ProgramHeaderType}
use double_jit_vm.Elf.Program
use double_jit_vm.Elf.Program.{ProgramHeader, get_virtual_addr, get_mem_size, get_file_size}
use double_jit_vm.Elf.Zero.{Slice, slice_range}
use double_jit_vm.Elf.Iter.{go}
use double_jit_vm.Elf.Interpreter.{is_load}
use double_jit_vm.Loader.{checked_or_panic, map_range, segment_turn}

-- The segment ends below the limit of the addresses, or is empty and does not pass it; and its bytes
-- lie in the file.
pub record Fits (bytes : List ℕ) (ph : ProgramHeader) : Type 0 where
  pub within : get_virtual_addr ph + get_mem_size ph ≤ address_limit
  pub below_limit : (get_virtual_addr ph + get_mem_size ph < address_limit) ⊎ (get_mem_size ph ≡ 0)
  pub in_file : Program.get_offset ph + get_file_size ph ≤ length bytes

checked_or_panic-eq : (a b c : ℕ) → checked_or_panic a b ≡ ok c → c ≡ a + b
unfolding checked_or_panic
checked_or_panic-eq a b c h = ground (arith, h)

map_range-go :
    (start end : ℕ)
    → map_range start end ≡ ok go
    → (end ≤ address_limit) × ((end < address_limit) ⊎ (end ≤ start))
unfolding map_range
map_range-go start end h = ground (arith, valid_page_range_index_and_offset_lem start end, h)

slice_range-eq :
    (input : List ℕ) (start end : ℕ) (view : Slice)
    → slice_range input start end ≡ ok view
    → end ≤ length input
unfolding slice_range
slice_range-eq input start end view h = ground (arith, h)

pub segment_turn-Fits :
    (bytes : List ℕ) (ph : ProgramHeader)
    → segment_turn bytes ph ≡ ok go
    → Program.get_type ph ≡ ok ProgramHeaderType.load
    → Fits bytes ph
unfolding segment_turn is_load
segment_turn-Fits bytes ph h loads =
    let h' = rw (loads) at h in
    let end = >>=-eq-ok (checked_or_panic (get_virtual_addr ph) (get_mem_size ph)) _ h' in
    let bytes_end =
      >>=-eq-ok (checked_or_panic (Program.get_offset ph) (get_file_size ph)) _ end.2 in
    let view = >>=-eq-ok (slice_range bytes (Program.get_offset ph) bytes_end.0) _ bytes_end.2 in
    let e = checked_or_panic-eq _ _ _ end.1 in
    let f = checked_or_panic-eq _ _ _ bytes_end.1 in
    let m = map_range-go (get_virtual_addr ph) end.0 view.2 in
    let s = slice_range-eq bytes (Program.get_offset ph) bytes_end.0 view.0 view.1 in
    record { within = ground arith; below_limit = ground arith; in_file = ground arith }
