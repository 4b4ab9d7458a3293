-- ===== src/Page/Write.antt =====
-- The abstract write: its length and its bytes.
use double_jit_vm.Prelude.{
  ℕ, zero, suc, ◌+◌, ◌-◌, ◌≤◌, ◌<◌, ◌≡◌, refl, List, ◌++◌, some, length, take, drop, replicate,
  length-append, length-take, length-drop, length-replicate, get_elem?, ltb, if◌then◌else◌, arith,
}
use double_jit_vm.Prelude.Slices.{get_elem?-append, get_elem?-take, get_elem?-drop}
use double_jit_vm.Page.View.{overwrite}

pub length-overwrite :
    (old : List ℕ) (start end : ℕ) (bytes : List ℕ)
    → start ≤ end
    → end ≤ length old
    → length bytes ≤ end - start
    → length (overwrite old start end bytes) ≡ length old
unfolding overwrite
length-overwrite old start end bytes hs he hb =
    let tail_ = replicate {A = ℕ} (end - start - length bytes) 0 ++ drop end old in
    omega (
      arith,
      length-take start old,
      length-drop end old,
      length-replicate {A = ℕ} (end - start - length bytes) 0,
      length-append (replicate {A = ℕ} (end - start - length bytes) 0) (drop end old),
      length-append bytes tail_,
      length-append (take start old) (bytes ++ tail_),
    )

get_elem?-replicate : (n i : ℕ) → i < n → get_elem? (replicate {A = ℕ} n 0) i ≡ some 0
get_elem?-replicate zero i h = absurd (omega arith)
get_elem?-replicate (suc n) zero h = refl
get_elem?-replicate (suc n) (suc i) h = get_elem?-replicate n i (omega arith)

-- The byte at `i` after the write.
pub get_elem?-overwrite :
    (old : List ℕ) (start end : ℕ) (bytes : List ℕ) (i : ℕ)
    → start ≤ end
    → end ≤ length old
    → length bytes ≤ end - start
    → get_elem? (overwrite old start end bytes) i ≡ (
        if ltb i start
        then get_elem? old i
        else if ltb i (start + length bytes)
        then get_elem? bytes (i - start)
        else if ltb i end
        then some 0
        else get_elem? old i)
unfolding overwrite
get_elem?-overwrite old start end bytes i hs he hb =
    let gap = end - start - length bytes in
    let zeros = replicate {A = ℕ} gap 0 in
    let front : length (take start old) ≡ start = omega (arith, length-take start old) in
    rw
      (
        get_elem?-append (take start old) (bytes ++ (zeros ++ drop end old)) i,
        front,
        get_elem?-take start old i,
        get_elem?-append bytes (zeros ++ drop end old) (i - start),
        get_elem?-append zeros (drop end old) (i - start - length bytes),
        length-replicate {A = ℕ} gap 0,
        get_elem?-drop end old (i - start - length bytes - gap),
      )
      (grind (arith, get_elem?-replicate gap (i - start - length bytes)))
