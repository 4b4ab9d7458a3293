-- ===== src/Page/Refinement.antt =====
-- What a page holds after `map_page` of src/frontend/binary.rs.
use Prim.Native.Nat.{min}
use double_jit_vm.Prelude.{
  ◌==◌, length-take, ◌+◌, ◌&&◌, get_elem?, ltb, if◌then◌else◌, sym, ℕ, ◌-◌, ◌≤◌, ◌≡◌, refl, ap,
  List, [], ◌∷◌, ◌++◌, Option, none, some, length, take, drop, replicate, zero, suc, leb,
  Bool-cases, inl, inr, arith,
}
use double_jit_vm.Prelude.Slices.{get_elem?-take, take-all}
use double_jit_vm.Prelude.Outcome.{Outcome, ok, panic, ◌>>=◌}
use double_jit_vm.Page.{Page, page_size, contents}
use double_jit_vm.Page.View.{view, overwrite, range}
use double_jit_vm.Page.Cases.{contents-fresh_page, copied_page_lem, written_page_lem}
use double_jit_vm.Page.Write.{length-overwrite, get_elem?-overwrite}
use double_jit_vm.Page.Map.{overlay, map_page}

-- What the page reads as afterwards.
abbrev reading : Outcome Page → Outcome (List ℕ)
reading m = m >>= λ p. ok (contents p)

overlay_lem :
    (page : Option Page) (start end : ℕ) (bytes : List ℕ)
    → start ≤ end
    → end ≤ page_size
    → length bytes ≤ end - start
    → length (view page) ≡ page_size
    → reading (overlay page (range start end) bytes) ≡ ok (overwrite (view page) start end bytes)
unfolding overlay view contents
overlay_lem none start end bytes hs he hb hv = ap ok (contents-fresh_page start end bytes hs he hb)
overlay_lem (some (Page.borrowed old)) start end bytes hs he hb hv =
    let inside : end ≤ length old = omega arith in
    rw (copied_page_lem old start end bytes hs inside hb)
overlay_lem (some (Page.owned old)) start end bytes hs he hb hv =
    let inside : end ≤ length old = omega arith in
    rw (written_page_lem old start end bytes hs inside hb)

take-min : (n : ℕ) (xs : List ℕ) → take (min (length xs) n) xs ≡ take n xs
take-min n xs = elim (Bool-cases (leb (length xs) n)) [
  | inl h ↦
      let inside : length xs ≤ n = ground arith in
      let e : min (length xs) n ≡ length xs = omega arith in
      rw (e, take-all n xs inside) (take-all (length xs) xs (omega arith))
  | inr h ↦
      let outside : n ≤ length xs = ground arith in
      let e : min (length xs) n ≡ n = omega arith in rw e
]

drop-all : (n : ℕ) (xs : List ℕ) → length xs ≤ n → drop n xs ≡ []
drop-all zero [] h = refl
drop-all zero (x ∷ xs) h = absurd (omega arith)
drop-all (suc n) [] h = refl
drop-all (suc n) (x ∷ xs) h = drop-all n xs (omega arith)

append-empty : (xs : List ℕ) → xs ++ [] ≡ xs
append-empty [] = refl
append-empty (x ∷ xs) = ap (x ∷◌) (append-empty xs)

-- The write over the whole page of a page of bytes, and of none.
overwrite-whole :
    (old : List ℕ) (start end : ℕ) (bytes : List ℕ)
    → start ≡ 0
    → end ≡ page_size
    → length old ≡ page_size
    → length bytes ≡ page_size
    → overwrite old start end bytes ≡ bytes
unfolding overwrite
overwrite-whole old start end bytes from to ho hb =
    let e : page_size - 0 - length bytes ≡ 0 = omega arith in
    rw (from, to, e, drop-all page_size old (omega arith), append-empty bytes)

overwrite-none :
    (old : List ℕ) (start end : ℕ) (bytes : List ℕ)
    → start ≡ 0
    → end ≡ page_size
    → length old ≡ page_size
    → length bytes ≡ 0
    → overwrite old start end bytes ≡ replicate page_size 0
unfolding overwrite
overwrite-none old start end [] from to ho hb =
    rw (from, to, drop-all page_size old (omega arith)) (append-empty (replicate page_size 0))
overwrite-none old start end (x ∷ xs) from to ho hb = absurd (omega arith)

-- The test for the whole page, split.
map_page-reading :
    (page : Option Page) (start end : ℕ) (all : List ℕ)
    → start ≤ end
    → end ≤ page_size
    → length (view page) ≡ page_size
    → reading (map_page page (range start end) all)
      ≡ ok (overwrite (view page) start end (take (end - start) all))
unfolding map_page contents
map_page-reading page start end all hs he hv =
    let bytes = take (end - start) all in
    let short : length bytes ≤ end - start = omega (arith, length-take (end - start) all) in
    let other = overlay_lem page start end bytes hs he short hv in
    rw (take-min (end - start) all) (elim (Bool-cases (start == 0 && end == page_size)) [
      | inr partial_ ↦ rw (partial_) other
      | inl whole ↦
          let from : start ≡ 0 = ground arith in
          let to : end ≡ page_size = ground arith in
          rw (whole) (elim (Bool-cases (length bytes == page_size)) [
            | inl full ↦
                let size : length bytes ≡ page_size = ground arith in
                rw (full)
                  (ap ok (sym (overwrite-whole (view page) start end bytes from to hv size)))
            | inr not_full ↦ rw (not_full) (elim (Bool-cases (length bytes == 0)) [
              | inl empty ↦ rw (empty) (
                  ap ok
                    (sym (overwrite-none (view page) start end bytes from to hv (ground arith))))
              | inr not_empty ↦ rw (not_empty) other
            ])
          ])
    ])

of_reading :
    (m : Outcome Page) (xs : List ℕ)
    → reading m ≡ ok xs
    → (after : Page) × (m ≡ ok after) × (contents after ≡ xs)
of_reading (ok after) xs h = (after, refl, ground (arith, h))
of_reading (panic p) xs h = absurd (ground (arith, h))

-- On a page of 4096 bytes (or on one that is not yet mapped, which reads as zeros), a range
-- within it and any bytes, `map_page` does not panic, and leaves a page of 4096 bytes. The byte at
-- `i` is as before outside the range; within it, it is the byte of `all` for as long as these
-- reach, and 0 behind them. It does not matter how the page was stored.
pub map_page_lem :
    (page : Option Page) (start end : ℕ) (all : List ℕ) (i : ℕ)
    → start ≤ end
    → end ≤ page_size
    → length (view page) ≡ page_size
    → (after : Page) × (map_page page (range start end) all ≡ ok after)
      × (length (contents after) ≡ page_size)
      × (get_elem? (contents after) i ≡ (
          if ltb i start
          then get_elem? (view page) i
          else if ltb i (start + min (length all) (end - start))
          then get_elem? all (i - start)
          else if ltb i end
          then some 0
          else get_elem? (view page) i))
map_page_lem page start end all i hs he hv =
    let bytes = take (end - start) all in
    let size : length bytes ≡ min (length all) (end - start) =
      omega (arith, length-take (end - start) all) in
    let result =
      of_reading (map_page page (range start end) all) (overwrite (view page) start end bytes)
        (map_page-reading page start end all hs he hv) in
    let short : length bytes ≤ end - start = omega arith in
    let inside : end ≤ length (view page) = omega arith in
    let byte = get_elem?-overwrite (view page) start end bytes i hs inside short in
    (
      result.0,
      result.1,
      rw (result.2, length-overwrite (view page) start end bytes hs inside short) hv,
      rw (result.2) (grind (arith, byte, get_elem?-take (end - start) all (i - start))),
    )
