-- ===== src/Page/View.antt =====
-- The abstract page, a list of bytes, and the one write that `map_page` of src/frontend/binary.rs
-- comes to.
use double_jit_vm.Prelude.{ℕ, ◌-◌, List, ◌++◌, Option, none, some, length, take, drop, replicate}
use double_jit_vm.Page.{Page, Range, page_size, contents}

-- The abstract page: what is not yet mapped reads as zero.
unfoldable pub view : Option Page → List ℕ
view none = replicate page_size 0
view (some page) = contents page

-- The range from `start` to `end` of `old` is replaced by `bytes`, with zeros behind them.
unfoldable pub overwrite : List ℕ → ℕ → ℕ → List ℕ → List ℕ
overwrite old start end bytes =
    take start old ++ (bytes ++ (replicate (end - start - length bytes) 0 ++ drop end old))

abbrev pub range : ℕ → ℕ → Range ℕ
range start end = record { start = start; end = end }
