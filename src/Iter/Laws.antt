-- ===== src/Iter/Laws.antt =====
-- How far `InstructionIter::next` of src/frontend/instruction.rs comes.
use double_jit_vm.Prelude.{
  ℕ, zero, suc, ◌+◌, ◌/◌, ◌%◌, ◌^◌, ◌≤◌, ◌<◌, ◌≡◌, refl, inl, inr, List, [], Option, none, some,
  length, drop, length-drop, length-take, replicate, ltb, leb, true, false, Bool, ◌&&◌, ap, sym,
  ◌∙◌, if◌then◌else◌, Bool-cases, arith,
}
use double_jit_vm.Prelude.Outcome.{
  Outcome, ◌>>=◌, Outcome-cases, ok, panic, out_of_range, arithmetic_overflow,
}
use double_jit_vm.Page.{Page, contents, page_size, address_limit, page_index_and_offset}
use double_jit_vm.Page.Address.{valid_page_index_and_offset_lem}
use double_jit_vm.Iter.{
  InstructionIter, Reader, mapped, fill_data, take_page, read_page, on_page, first_reader, turn,
  turns, start, next, next_start,
}

-- The reader before the first turn.
abbrev pub reader_at : ℕ → Reader
reader_at addr = record {
  page_index = addr / 2 ^ 12;
  offset = addr % 2 ^ 12;
  address = addr;
  read_len = 0;
  done = [];
  data_ = replicate 32 0;
}

start-valid :
    (it : InstructionIter) → it.address < address_limit → start it ≡ ok (reader_at it.address)
unfolding start first_reader page_index_and_offset
start-valid it h =
    let below : ltb it.address address_limit ≡ true = ground arith in
    rw (valid_page_index_and_offset_lem it.address, below)

length-fill_data : (r : Reader) (rest : List ℕ) → length (fill_data r rest).data_ ≡ length r.data_
unfolding fill_data
length-fill_data r rest = ground (arith, length-take (length r.data_) rest)

-- A page with more bytes left than the buffer has room for ends the loop by a panic.
read_page-panic :
    (r : Reader) (page : List ℕ)
    → length r.data_ + r.offset < length page
    → read_page r page ≡ panic out_of_range
unfolding read_page take_page
read_page-panic r page h =
    ground (arith, length-drop r.offset page, length-fill_data r (drop r.offset page))

-- The loop after `n` turns over pages that are not mapped: only the start of the range has moved. It
-- passes the last number of a `usize` by a panic in a build with checks, else on to 0.
abbrev pub waited : (checks : Bool) → Reader → ℕ → Outcome Reader
waited checks r n =
    if checks && leb (2 ^ 64) (r.page_index + n)
    then panic arithmetic_overflow
    else ok (record r { page_index = (r.page_index + n) % 2 ^ 64 })

-- The pages that `n` turns from the number `first` on look up.
abbrev pub AreUnmapped : List (Option Page) → (first n : ℕ) → Type 0
AreUnmapped memory first n = (q : ℕ) → first ≤ q → q < first + n → mapped memory (q % 2 ^ 64) ≡ none

waited-below :
    (checks : Bool) (r : Reader) (n : ℕ)
    → r.page_index + n < 2 ^ 64
    → waited checks r n ≡ ok (record r { page_index = r.page_index + n })
waited-below true r n h =
    let inside : leb (2 ^ 64) (r.page_index + n) ≡ false = ground arith in
    let same : (r.page_index + n) % 2 ^ 64 ≡ r.page_index + n = omega arith in rw (inside, same)
waited-below false r n h =
    let same : (r.page_index + n) % 2 ^ 64 ≡ r.page_index + n = omega arith in rw same

-- The last turn of the range, with what the turns from 0 on come to.
turns-last :
    (checks : Bool) (n : ℕ) (memory : List (Option Page)) (r : Reader)
    → r.page_index < 2 ^ 64
    → ltb (suc r.page_index) (2 ^ 64) ≡ false
    → mapped memory r.page_index ≡ none
    → turns checks n memory (record r { page_index = 0 })
      ≡ waited checks (record r { page_index = 0 }) n
    → turns checks (suc n) memory r ≡ waited checks r (suc n)
unfolding turns turn on_page next_start
turns-last true n memory r h last here rest =
    let over : leb (2 ^ 64) (r.page_index + suc n) ≡ true = ground arith in rw (last, over)
turns-last false n memory r h last here rest =
    let around : (r.page_index + suc n) % 2 ^ 64 ≡ (0 + n) % 2 ^ 64 = ground arith in
    rw (last, here, around, rest)

AreUnmapped-around :
    (memory : List (Option Page)) (first n : ℕ)
    → suc first ≡ 2 ^ 64
    → AreUnmapped memory first (suc n)
    → AreUnmapped memory 0 n
AreUnmapped-around memory first n last empty q low high =
    let same : (q + 2 ^ 64) % 2 ^ 64 ≡ q % 2 ^ 64 = omega arith in
    ap (mapped memory) (sym same)
    ∙ empty (q + 2 ^ 64) (omega (arith, last)) (omega (arith, last, high))

turns-empty :
    (checks : Bool) (n : ℕ) (memory : List (Option Page)) (r : Reader)
    → r.page_index < 2 ^ 64
    → AreUnmapped memory r.page_index n
    → turns checks n memory r ≡ waited checks r n
unfolding turns turn on_page next_start
turns-empty checks zero memory r h empty =
    let e : r.page_index + 0 ≡ r.page_index = omega arith in
    rw (waited-below checks r zero (omega arith), e)
turns-empty checks (suc n) memory r h empty =
    let here : r.page_index % 2 ^ 64 ≡ r.page_index = omega arith in
    let none_here : mapped memory r.page_index ≡ none =
      ap (mapped memory) (sym here) ∙ empty r.page_index (omega arith) (omega arith) in
    elim (Bool-cases (ltb (suc r.page_index) (2 ^ 64))) [
      | inl inside ↦
          let e : suc r.page_index + n ≡ r.page_index + suc n = omega arith in
          let rest : AreUnmapped memory (suc r.page_index) n =
            λ q low high. empty q (omega (arith, low)) (omega (arith, high)) in
          rw (inside, none_here, sym e)
            (turns-empty checks n memory (record r { page_index = suc r.page_index }) (ground arith)
              rest)
      | inr last ↦ turns-last checks n memory r h last none_here (
          turns-empty checks n memory (record r { page_index = 0 }) (omega arith)
            (AreUnmapped-around memory r.page_index n (ground arith) empty))
    ]

turns-add :
    (checks : Bool) (m n : ℕ) (memory : List (Option Page)) (r : Reader)
    → turns checks (m + n) memory r ≡ (turns checks m memory r >>= turns checks n memory)
unfolding turns
turns-add checks zero n memory r = let e : 0 + n ≡ n = omega arith in rw e
turns-add checks (suc m) n memory r =
    let e : suc m + n ≡ suc (m + n) = omega arith in
    elim (Outcome-cases (turn checks memory r)) [
      | inl on ↦ rw (e, on.1, turns-add checks m n memory on.0)
      | inr stopped ↦ rw (e, stopped.1)
    ]

-- From a valid address on, after `n` turns that look up no mapped page, `next` is still in its loop, with
-- the number of the next page `n` larger and nothing else changed; but the turn for the last number of a
-- `usize` panics in a build that checks for overflow, and without the checks page 0 comes after it.
pub next-waiting :
    (checks : Bool) (it : InstructionIter) (n : ℕ)
    → it.address < address_limit
    → AreUnmapped it.memory_map (it.address / 2 ^ 12) n
    → next checks n it ≡ waited checks (reader_at it.address) n
unfolding next
next-waiting checks it n valid empty =
    rw (start-valid it valid)
      (turns-empty checks n it.memory_map (reader_at it.address) (omega arith) empty)

-- Where the `k` pages from that of a valid address on are not mapped, and the next one is, with 4096
-- bytes and a number below the last of a `usize`, and the offset of the address leaves more than 32 of
-- these, `next` panics in the turn of that page: it never gets to parse an instruction. The offset
-- counts in that page, also if `k` is not 0.
pub next-panic :
    (checks : Bool) (it : InstructionIter) (page : Page) (k n : ℕ)
    → it.address < address_limit
    → it.address / 2 ^ 12 + suc k < 2 ^ 64
    → AreUnmapped it.memory_map (it.address / 2 ^ 12) k
    → mapped it.memory_map (it.address / 2 ^ 12 + k) ≡ some page
    → length (contents page) ≡ page_size
    → it.address % 2 ^ 12 + 32 < page_size
    → next checks (k + suc n) it ≡ panic out_of_range
unfolding next turns turn on_page next_start
next-panic checks it page k n valid few empty there size room =
    let first = reader_at it.address in
    let on : Reader = record first { page_index = it.address / 2 ^ 12 + suc k } in
    let next_number : suc (it.address / 2 ^ 12 + k) ≡ it.address / 2 ^ 12 + suc k = omega arith in
    let long : length on.data_ + on.offset < length (contents page) = omega arith in
    let inside : ltb (suc (it.address / 2 ^ 12 + k)) (2 ^ 64) ≡ true = ground arith in
    rw
      (
        start-valid it valid,
        turns-add checks k (suc n) it.memory_map first,
        turns-empty checks k it.memory_map first (omega arith) empty,
        waited-below checks first k (omega arith),
        inside,
        there,
        next_number,
      )
      (rw (read_page-panic on (contents page) long) refl)
