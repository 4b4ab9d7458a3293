-- ===== src/Tests/State.antt =====
-- The theorems on pages, the vector unit and the cache at concrete inputs.
use Prim.Native.Nat.{min}
use double_jit_vm.Prelude.{
  List, ℕ, ◌+◌, ◌-◌, ◌^◌, ◌≤◌, ◌≡◌, refl, [], ◌∷◌, none, some, true, length, length-replicate,
  get_elem?, ltb, ◌==◌, if◌then◌else◌, arith,
}
use double_jit_vm.Prelude.Outcome.{ok}
use double_jit_vm.Instr.{Instr}
use double_jit_vm.Page.{
  Page, ElfError, success, failure, contents, page_size, address_limit, page_index_and_offset,
  valid_page_range_index_and_offset,
}
use double_jit_vm.Page.Map.{map_page}
use double_jit_vm.Page.View.{view, range}
use double_jit_vm.Page.Address.{valid_page_range_index_and_offset_lem}
use double_jit_vm.Page.Refinement.{map_page_lem}
use double_jit_vm.Vector.{set_vl, new}
use double_jit_vm.Vector.Meaning.{is_legal, capacity, lmul}
use double_jit_vm.Vector.Laws.{set_vl_lem, set_vl-room, new-IsValid}
use double_jit_vm.Vector.Reach.{IsReached, created, configured, Shows, reached-Shows}
use double_jit_vm.Cache
use double_jit_vm.Cache.Laws.{set_all, last_set, get-new-set_all}

valid_page_range_index_and_offset_example :
    valid_page_range_index_and_offset (record { start = 0x10000; end = 2 ^ 38 }) ≡ (
      if ltb (2 ^ 38) address_limit
      then success
          (record { start = page_index_and_offset 0x10000; end = page_index_and_offset (2 ^ 38) })
      else failure (ElfError.address_error 0x10000 "Ummaped address"))
valid_page_range_index_and_offset_example = valid_page_range_index_and_offset_lem 0x10000 (2 ^ 38)

-- A page that is not yet mapped has the size of a page.
view-none : length (view none) ≡ page_size
unfolding view
view-none = length-replicate {A = ℕ} 4096 0

abbrev two_bytes : List ℕ
two_bytes = 7 ∷ 8 ∷ []

map_page_example :
    (after : Page) × (map_page none (range 16 20) two_bytes ≡ ok after)
    × (length (contents after) ≡ page_size)
    × (get_elem? (contents after) 17 ≡ (
        if ltb 17 16
        then get_elem? (view none) 17
        else if ltb 17 (16 + min (length two_bytes) (20 - 16))
        then get_elem? two_bytes (17 - 16)
        else if ltb 17 20
        then some 0
        else get_elem? (view none) 17))
map_page_example = map_page_lem none 16 20 two_bytes 17 (omega arith) (omega arith) view-none

-- `e64, m2` is a legal type.
abbrev legal_type : ℕ
legal_type = 0b011_001

legal_type-is_legal : is_legal legal_type ≡ true
unfolding is_legal lmul
legal_type-is_legal = refl

-- A unit that was set twice, the second time to an illegal type.
set_twice-IsReached : IsReached (set_vl (set_vl new 1 2 10 legal_type) 0 0 0 (2 ^ 20))
set_twice-IsReached =
    configured (set_vl new 1 2 10 legal_type) 0 0 0 (2 ^ 20)
      (configured new 1 2 10 legal_type created)

reached-Shows_example :
    Shows
      (set_vl (set_vl new 1 2 10 legal_type) 0 0 0 (2 ^ 20))
      (set_vl (set_vl new 1 2 10 legal_type) 0 0 0 (2 ^ 20)).vtype
    × ((set_vl (set_vl new 1 2 10 legal_type) 0 0 0 (2 ^ 20)).vstart ≡ 0)
reached-Shows_example =
    reached-Shows (set_vl (set_vl new 1 2 10 legal_type) 0 0 0 (2 ^ 20)) set_twice-IsReached

set_vl_example :
    ((set_vl new 1 2 10 legal_type).vtype ≡ (if is_legal legal_type then legal_type else 2 ^ 63))
    × ((set_vl new 1 2 10 legal_type).vlmax ≡ capacity legal_type)
    × ((set_vl new 1 2 10 legal_type).vl ≡ (
        if 2 == 0
        then (if 1 == 0 then min new.vl (capacity legal_type) else capacity legal_type)
        else min 10 (capacity legal_type)))
set_vl_example = set_vl_lem new 1 2 10 legal_type (new-IsValid.0)

set_vl-room_example :
    (1 ≤ (set_vl new 1 0 0 legal_type).vlmax) × ((set_vl new 1 0 0 legal_type).vlmax ≤ 2048)
set_vl-room_example = set_vl-room new 1 0 0 legal_type (new-IsValid.0) legal_type-is_legal

get-new-set_all_example :
    Cache.get (set_all Cache.new ((4, Instr.nop) ∷ (8, Instr.nop) ∷ (4, Instr.nop) ∷ [])) 4
    ≡ last_set none ((4, Instr.nop) ∷ (8, Instr.nop) ∷ (4, Instr.nop) ∷ []) 4
get-new-set_all_example = get-new-set_all ((4, Instr.nop) ∷ (8, Instr.nop) ∷ (4, Instr.nop) ∷ []) 4
