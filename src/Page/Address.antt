-- ===== src/Page/Address.antt =====
-- The page number and the offset of an address.
use double_jit_vm.Prelude.{ℕ, ◌+◌, ◌*◌, ◌/◌, ◌%◌, ◌^◌, ◌<◌, ◌≡◌, ltb, if◌then◌else◌, arith}
use double_jit_vm.Page.{
  PageIndexOfs, ElfError, success, failure, page_index_and_offset, valid_page_index_and_offset,
  valid_page_range_index_and_offset, map_page_index, address_limit,
}

abbrev at_page : ℕ → ℕ → PageIndexOfs ℕ ℕ
at_page page offset = record { page_index = page; offset = offset }

-- The address of `offset` in page `page`, for an offset below 4096, is cut into that page and that
-- offset.
pub page_index_and_offset-join :
    (page offset : ℕ)
    → offset < 4096
    → page_index_and_offset (page * 4096 + offset) ≡ at_page page offset
unfolding page_index_and_offset
page_index_and_offset-join page offset h =
    let high : (page * 4096 + offset) / 2 ^ 12 ≡ page = omega arith in
    let low : (page * 4096 + offset) % 2 ^ 12 ≡ offset = omega arith in rw (high, low)

-- The page number and the offset of an address give the address back, and the offset is below 4096.
page_index_and_offset-split :
    (addr : ℕ)
    → ((page_index_and_offset addr).page_index * 4096 + (page_index_and_offset addr).offset ≡ addr)
      × ((page_index_and_offset addr).offset < 4096)
unfolding page_index_and_offset
page_index_and_offset-split addr = (omega arith, omega arith)

-- An address has a valid page exactly below the limit of 2^38, and the page is the one of
-- `page_index_and_offset`; any other address is an error that names it.
pub valid_page_index_and_offset_lem :
    (addr : ℕ)
    → valid_page_index_and_offset addr ≡ (
        if ltb addr address_limit
        then success (page_index_and_offset addr)
        else failure (ElfError.address_error addr "Invalid address"))
unfolding valid_page_index_and_offset page_index_and_offset map_page_index
valid_page_index_and_offset_lem addr = ground arith

-- A range of addresses has valid pages exactly if its end lies below the limit, whatever its start
-- is; else the error names the start. A range that ends at the limit itself is an error.
pub valid_page_range_index_and_offset_lem :
    (start end : ℕ)
    → valid_page_range_index_and_offset (record { start = start; end = end }) ≡ (
        if ltb end address_limit
        then success
            (record { start = page_index_and_offset start; end = page_index_and_offset end })
        else failure (ElfError.address_error start "Ummaped address"))
unfolding valid_page_range_index_and_offset page_index_and_offset map_page_index
valid_page_range_index_and_offset_lem start end = ground arith
