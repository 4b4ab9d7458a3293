-- ===== src/Iter.antt =====
-- `InstructionIter::next` of src/frontend/instruction.rs: its loop over the pages. The loop has no
-- `break`, so what stands behind it is not run. The buffer of 32 bytes is in two parts: `done`, which is
-- filled, and `data`, the slice that shrinks. Sums of an address and at most 32 bytes read do not
-- overflow; the counter of pages does.
pub mod Laws
use double_jit_vm.Prelude.{
  ℕ, zero, suc, ◌+◌, ◌^◌, Bool, ltb, List, [], ◌++◌, Option, none, some, length, get_elem?, take,
  drop, replicate, leb, if◌then◌else◌,
}
use double_jit_vm.Prelude.Outcome.{
  Outcome, ok, panic, ◌>>=◌, unwrap_err, out_of_range, arithmetic_overflow,
}
use double_jit_vm.Page.{
  Page, PageIndexOfs, ParseResult, success, failure, contents, valid_page_index_and_offset,
}

pub record InstructionIter : Type 0 where
  pub address : ℕ
  pub memory_map : List (Option Page)

-- The variables of `next`; `page_index` is the start of the range that is left.
pub record Reader : Type 0 where
  pub page_index : ℕ
  pub offset : ℕ
  pub address : ℕ
  pub read_len : ℕ
  pub done : List ℕ
  pub data_ : List ℕ

-- `memory_map.get(page_index).and_then(Option::as_ref)`.
unfoldable pub mapped : List (Option Page) → ℕ → Option Page
mapped memory_map page_index = elim (get_elem? memory_map page_index) [
  | some page ↦ page
  | none ↦ none
]

-- `if data.len() <= the_rest_page.len()`: the copy that fills the buffer, which does not leave the loop.
unfoldable pub fill_data : Reader → List ℕ → Reader
fill_data r the_rest_page =
    if leb (length r.data_) (length the_rest_page)
    then record r {
      data_ = take (length r.data_) the_rest_page;
      read_len = r.read_len + length r.data_;
    }
    else r

-- From `split_at_mut` on, which panics on a page longer than what is left of the buffer.
unfoldable pub take_page : Reader → List ℕ → Outcome Reader
take_page r the_rest_page =
    if leb (length the_rest_page) (length r.data_)
    then ok (record {
      page_index = r.page_index;
      offset = 0;
      address = r.address + length the_rest_page;
      read_len = r.read_len + length the_rest_page;
      done = r.done ++ the_rest_page;
      data_ = drop (length the_rest_page) r.data_;
    })
    else panic out_of_range

-- The body of the loop on a page that is there; `&page[offset..]` panics behind its end.
unfoldable pub read_page : Reader → List ℕ → Outcome Reader
read_page r page =
    if leb r.offset (length page)
    then take_page (fill_data r (drop r.offset page)) (drop r.offset page)
    else panic out_of_range

-- The body of a turn, on the page if there is one.
unfoldable pub on_page : Option Page → Reader → Outcome Reader
on_page (some page) r = read_page r (contents page)
on_page none r = ok r

-- `RangeFrom::<usize>::next` moves the start on before the body runs on its former value. A build
-- that checks for overflow panics there, one that does not goes on from 0.
unfoldable pub next_start : (checks : Bool) → ℕ → Outcome ℕ
next_start checks page_index =
    if ltb (suc page_index) (2 ^ 64)
    then ok (suc page_index)
    else if checks
    then panic arithmetic_overflow
    else ok 0

-- One turn of the loop: it ends in the next turn, or in a panic.
unfoldable pub turn : (checks : Bool) → List (Option Page) → Reader → Outcome Reader
turn checks memory_map r = next_start checks r.page_index >>= λ following.
    on_page (mapped memory_map r.page_index) (record r { page_index = following })

unfoldable pub turns : (checks : Bool) → ℕ → List (Option Page) → Reader → Outcome Reader
turns checks zero memory_map r = ok r
turns checks (suc n) memory_map r = turn checks memory_map r >>= turns checks n memory_map

-- What precedes the loop, with its `unwrap`.
unfoldable pub first_reader : ℕ → ParseResult (PageIndexOfs ℕ ℕ) → Outcome Reader
first_reader address (success p) = ok (record {
  page_index = p.page_index;
  offset = p.offset;
  address = address;
  read_len = 0;
  done = [];
  data_ = replicate 32 0;
})
first_reader address (failure e) = panic unwrap_err

unfoldable pub start : InstructionIter → Outcome Reader
start it = first_reader it.address (valid_page_index_and_offset it.address)

-- `next`, cut off after `n` turns: the state of the loop, or the panic that ended it.
unfoldable pub next : (checks : Bool) → ℕ → InstructionIter → Outcome Reader
next checks n it = start it >>= turns checks n it.memory_map
