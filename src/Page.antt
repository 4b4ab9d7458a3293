-- ===== src/Page.antt =====
-- src/frontend/page.rs: guest addresses cut into pages of 4096 bytes, and the page itself. The
-- children are `map_page` of src/frontend/binary.rs, the abstract page, and the theorems.
pub mod Map
pub mod Address
pub mod View
mod Cases
mod Write
pub mod Refinement
use Prim.Native.String.{String}
use double_jit_vm.Prelude.{ℕ, ◌-◌, ◌/◌, ◌%◌, ◌^◌, List, ltb, if◌then◌else◌}

-- `ElfError` of src/frontend/elf.rs; the variant `IO` is behind a feature that the crate lacks.
pub data ElfError : Type 0 where
  malformed : String → ElfError
  not_meet : String → ElfError
  bad_magic : ℕ → ElfError
  address_error : ℕ → String → ElfError

-- The three `From` conversions into it.
unfoldable pub from_u64 : ℕ → ElfError
from_u64 e = ElfError.bad_magic e

unfoldable pub from_string : String → ElfError
from_string e = ElfError.malformed e

unfoldable pub from_address : ℕ × String → ElfError
from_address e = ElfError.address_error e.0 e.1

-- `ParseResult`: an error is a value here, not a panic.
pub data ParseResult {ℓ} (A : Type ℓ) : Type ℓ where
  success : A → ParseResult A
  failure : ElfError → ParseResult A

pub record PageIndexOfs (I O : Type 0) : Type 0 where
  pub page_index : I
  pub offset : O

unfoldable pub map_page_index : {I O R : Type 0} → PageIndexOfs I O → (I → R) → PageIndexOfs R O
map_page_index p f = record { page_index = f p.page_index; offset = p.offset }

-- `Page::SIZE`, `Page::ADDRESS_LIMIT` and `Page::VALID_SIZE`.
abbrev pub page_size : ℕ
page_size = 2 ^ 12

abbrev pub address_limit : ℕ
address_limit = 2 ^ 38

abbrev pub valid_size : ℕ
valid_size = 2 ^ (38 - 12)

-- A page borrowed from the file, or owned; `contents` is its `Deref`.
pub data Page : Type 0 where
  borrowed : List ℕ → Page
  owned : List ℕ → Page

unfoldable pub contents : Page → List ℕ
contents (Page.borrowed v) = v
contents (Page.owned v) = v

unfoldable pub page_index_and_offset : ℕ → PageIndexOfs ℕ ℕ
page_index_and_offset addr = record { page_index = addr / 2 ^ 12; offset = addr % page_size }

unfoldable pub valid_page_index_and_offset : ℕ → ParseResult (PageIndexOfs ℕ ℕ)
valid_page_index_and_offset addr =
    let res = page_index_and_offset addr in
    if ltb res.page_index valid_size
    then success (map_page_index res (λ v. v))
    else failure (ElfError.address_error addr "Invalid address")

-- A Rust `Range`.
pub record Range (A : Type 0) : Type 0 where
  pub start : A
  pub end : A

unfoldable pub valid_page_range_index_and_offset : Range ℕ → ParseResult (Range (PageIndexOfs ℕ ℕ))
valid_page_range_index_and_offset addr =
    let start = page_index_and_offset addr.start in
    let end = page_index_and_offset addr.end in
    if ltb end.page_index valid_size
    then success
        (record { start = map_page_index start (λ v. v); end = map_page_index end (λ v. v) })
    else failure (ElfError.address_error addr.start "Ummaped address")
