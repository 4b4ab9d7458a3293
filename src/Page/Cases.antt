-- ===== src/Page/Cases.antt =====
-- The three cases of `map_page` of src/frontend/binary.rs, each the abstract write.
use double_jit_vm.Prelude.{
  ℕ, ◌+◌, ◌-◌, ◌≤◌, ◌≡◌, sym, ap, List, [], ◌++◌, length, take, drop, replicate, length-append,
  length-take, length-drop, length-replicate, arith,
}
use double_jit_vm.Prelude.Slices.{
  append_assoc, take-all, drop-drop, take-append, drop-append, take-replicate, drop-replicate,
  append-replicate,
}
use double_jit_vm.Prelude.Outcome.{ok}
use double_jit_vm.Page.{Page, page_size, contents}
use double_jit_vm.Page.View.{overwrite, range}
use double_jit_vm.Page.Map.{resize, copy_at, fill_from, fresh_page, copied_page, written_page}

resize_lem : (n : ℕ) (v : List ℕ) → length v ≤ n → resize n v ≡ v ++ replicate (n - length v) 0
unfolding resize
resize_lem n v h = rw (take-all n v h)

-- What a page of `n` zeros becomes.
overwrite-zeros :
    (n start end : ℕ) (bytes : List ℕ)
    → start ≤ end
    → end ≤ n
    → length bytes ≤ end - start
    → overwrite (replicate n 0) start end bytes
      ≡ replicate start 0 ++ (bytes ++ replicate (n - (start + length bytes)) 0)
unfolding overwrite
overwrite-zeros n start end bytes hs he hb =
    let e : end - start - length bytes + (n - end) ≡ n - (start + length bytes) = omega arith in
    rw (
      take-replicate {A = ℕ} start n 0 (omega arith),
      drop-replicate {A = ℕ} end n 0,
      append-replicate {A = ℕ} (end - start - length bytes) (n - end) 0,
      e,
    )

pub contents-fresh_page :
    (start end : ℕ) (bytes : List ℕ)
    → start ≤ end
    → end ≤ page_size
    → length bytes ≤ end - start
    → contents (fresh_page (range start end) bytes)
      ≡ overwrite (replicate page_size 0) start end bytes
unfolding fresh_page contents
contents-fresh_page start end bytes hs he hb =
    let whole : start - length {A = ℕ} [] ≡ start = omega arith in
    let front : resize start [] ≡ replicate start 0 =
      rw (resize_lem start [] (omega arith), whole) in
    let size : length (replicate start 0 ++ bytes) ≡ start + length bytes =
      omega (arith, length-append (replicate start 0) bytes, length-replicate {A = ℕ} start 0) in
    rw
      (
        front,
        resize_lem page_size (replicate start 0 ++ bytes) (omega arith),
        size,
        overwrite-zeros page_size start end bytes hs he hb,
      )
      (append_assoc (replicate start 0) bytes (replicate (page_size - (start + length bytes)) 0))

module _ (old : List ℕ) (start end : ℕ) (bytes : List ℕ) (hs : start ≤ end) (he : end ≤ length old)
    (hb : length bytes ≤ end - start) where
  length-front : length (take start old) ≡ start
  length-front = omega (arith, length-take start old)

  pub copied_page_lem :
      copied_page (range start end) bytes old ≡ ok (Page.owned (overwrite old start end bytes))
  unfolding copied_page overwrite
  copied_page_lem =
      let size : length (take start old ++ bytes) ≡ start + length bytes =
        omega (arith, length-append (take start old) bytes, length-front) in
      let gap : end - (start + length bytes) ≡ end - start - length bytes = omega arith in
      let joined : resize end (take start old ++ bytes) ++ drop end old
          ≡ overwrite old start end bytes =
        rw (
          resize_lem end (take start old ++ bytes) (omega arith),
          size,
          gap,
          append_assoc (take start old ++ bytes) (replicate (end - start - length bytes) 0)
              (drop end old),
          append_assoc (take start old) bytes
              (replicate (end - start - length bytes) 0 ++ drop end old),
        ) in
      ground (arith, joined)

  copied : List ℕ
  copied = take start old ++ (bytes ++ drop (start + length bytes) old)

  copy_at_lem : copy_at start bytes old ≡ ok copied
  unfolding copy_at copied
  copy_at_lem = ground arith

  length-copied : length copied ≡ length old
  unfolding copied
  length-copied = omega (
    arith,
    length-front,
    length-append (take start old) (bytes ++ drop (start + length bytes) old),
    length-append bytes (drop (start + length bytes) old),
    length-drop (start + length bytes) old,
  )

  take-copied : take (start + length bytes) copied ≡ take start old ++ bytes
  unfolding copied
  take-copied =
      let size : start + length bytes ≡ length (take start old ++ bytes) =
        omega (arith, length-append (take start old) bytes, length-front) in
      rw (sym (append_assoc (take start old) bytes (drop (start + length bytes) old))) (
        take-append (start + length bytes) (take start old ++ bytes)
          (drop (start + length bytes) old) size)

  drop-copied : drop end copied ≡ drop end old
  unfolding copied
  drop-copied =
      let size : start + length bytes ≡ length (take start old ++ bytes) =
        omega (arith, length-append (take start old) bytes, length-front) in
      let rest : start + length bytes + (end - (start + length bytes)) ≡ end = omega arith in
      let cut : drop (start + length bytes) copied ≡ drop (start + length bytes) old =
        rw (sym (append_assoc (take start old) bytes (drop (start + length bytes) old))) (
          drop-append (start + length bytes) (take start old ++ bytes)
            (drop (start + length bytes) old) size) in
      rw (
        sym (ap (λ n. drop n copied) rest),
        sym (drop-drop (end - (start + length bytes)) (start + length bytes) copied),
        cut,
        drop-drop (end - (start + length bytes)) (start + length bytes) old,
        rest,
      )

  fill_from_lem :
      fill_from (range start end) (length bytes) copied ≡ ok (overwrite old start end bytes)
  unfolding fill_from overwrite
  fill_from_lem =
      let joined : take (start + length bytes) copied
            ++ (replicate (end - start - length bytes) 0 ++ drop end copied)
          ≡ overwrite old start end bytes =
        rw (take-copied, drop-copied)
          (append_assoc (take start old) bytes
            (replicate (end - start - length bytes) 0 ++ drop end old)) in
      ground (arith, joined, length-copied)

  pub written_page_lem :
      written_page (range start end) bytes old ≡ ok (Page.owned (overwrite old start end bytes))
  unfolding written_page
  written_page_lem = rw (copy_at_lem, fill_from_lem)
