-- ===== src/Page/Map.antt =====
-- `map_page` of src/frontend/binary.rs: one page of a segment is laid over a page of memory. The
-- buffers are lists of bytes; `resize` is `Vec::resize` with 0.
use Prim.Native.Nat.{min}
use double_jit_vm.Prelude.{
  ℕ, ◌+◌, ◌-◌, List, [], ◌++◌, Option, none, some, length, take, drop, replicate, ◌==◌, leb,
  if◌then◌else◌, ◌&&◌,
}
use double_jit_vm.Prelude.Outcome.{Outcome, ok, panic, ◌>>=◌, out_of_range}
use double_jit_vm.Page.{Page, Range, page_size}

unfoldable pub resize : ℕ → List ℕ → List ℕ
resize n v = take n v ++ replicate (n - length v) 0

-- `data[start..][..bytes.len()].copy_from_slice(bytes)`.
unfoldable pub copy_at : ℕ → List ℕ → List ℕ → Outcome (List ℕ)
copy_at start bytes data_ =
    if leb (start + length bytes) (length data_)
    then ok (take start data_ ++ (bytes ++ drop (start + length bytes) data_))
    else panic out_of_range

-- `data[offset_range][from..].fill(0)`.
unfoldable pub fill_from : Range ℕ → ℕ → List ℕ → Outcome (List ℕ)
fill_from r from data_ =
    if leb r.start r.end && leb r.end (length data_) && leb from (r.end - r.start)
    then ok
        (take (r.start + from) data_ ++ (replicate (r.end - r.start - from) 0 ++ drop r.end data_))
    else panic out_of_range

-- The case `None`.
unfoldable pub fresh_page : Range ℕ → List ℕ → Page
fresh_page r bytes = Page.owned (resize page_size (resize r.start [] ++ bytes))

-- The case of a borrowed page, whose bytes are copied around the new ones.
unfoldable pub copied_page : Range ℕ → List ℕ → List ℕ → Outcome Page
copied_page r bytes old_bytes =
    if leb r.start (length old_bytes) && leb r.end (length old_bytes)
    then ok (Page.owned (resize r.end (take r.start old_bytes ++ bytes) ++ drop r.end old_bytes))
    else panic out_of_range

-- The case of an owned page, written in place.
unfoldable pub written_page : Range ℕ → List ℕ → List ℕ → Outcome Page
written_page r bytes data_ = do
  copied ← copy_at r.start bytes data_
  filled ← fill_from r (length bytes) copied
  ok (Page.owned filled)

-- The `match page` on what the page was before.
unfoldable pub overlay : Option Page → Range ℕ → List ℕ → Outcome Page
overlay none r bytes = ok (fresh_page r bytes)
overlay (some (Page.borrowed old_bytes)) r bytes = copied_page r bytes old_bytes
overlay (some (Page.owned data_)) r bytes = written_page r bytes data_

-- The page after the call, whose result is always `Ok(())`.
unfoldable pub map_page : Option Page → Range ℕ → List ℕ → Outcome Page
map_page page r all =
    let bytes = take (min (length all) (r.end - r.start)) all in
    if r.start == 0 && r.end == page_size
    then (if length bytes == page_size
        then ok (Page.borrowed bytes)
        else if length bytes == 0
        then ok (Page.borrowed (replicate page_size 0))
        else overlay page r bytes)
    else overlay page r bytes
