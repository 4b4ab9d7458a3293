-- ===== src/Elf/Opened.antt =====
-- What `ElfFile::new` of src/frontend/elf.rs makes of a file.
use double_jit_vm.Prelude.{ℕ, ◌+◌, ◌≤◌, ◌≡◌, refl, List, length, Bool-cases, inl, inr, ltb, arith}
use double_jit_vm.Prelude.Outcome.{ok, >>=-eq-ok}
use double_jit_vm.Page.{ParseResult, success, failure}
use double_jit_vm.Elf.Kinds.{Class}
use double_jit_vm.Elf.Header.{
  HeaderPt1, HeaderPt2_, HeaderPt2, get_class, get_size, size_of_part1, size_of_header32,
  size_of_header64,
}
use double_jit_vm.Elf.Zero.{Zero, Slice, slice_range}
use double_jit_vm.Elf.File.{ElfFile, read_part2, with_parts, new}

-- The second part has the width that the class names, and there is no third class.
pub data Matches : Class → HeaderPt2 → Type 0 where
  bits32 : (h : HeaderPt2_) → Matches Class.thirty_two (HeaderPt2.header32 h)
  bits64 : (h : HeaderPt2_) → Matches Class.sixty_four (HeaderPt2.header64 h)

pub record IsOpened (bytes : List ℕ) (elf : ElfFile) : Type 0 where
  pub same_input : elf.input ≡ bytes
  pub matches : Matches (get_class elf.header_part1) elf.header_part2
  pub room : size_of_part1 + get_size elf.header_part2 ≤ length bytes

slice_range-room :
    (input : List ℕ) (start end : ℕ) (view : Slice)
    → slice_range input start end ≡ ok view
    → end ≤ length input
unfolding slice_range
slice_range-room input start end view h = ground (arith, h)

module _ (z : Zero) (bytes : List ℕ) where
  read_part2-Matches :
      (c : Class) (h2 : HeaderPt2)
      → read_part2 z bytes c ≡ ok (success h2)
      → Matches c h2 × (size_of_part1 + get_size h2 ≤ length bytes)
  unfolding read_part2 get_size
  read_part2-Matches Class.thirty_two h2 e =
      let v = >>=-eq-ok (slice_range bytes size_of_part1 (size_of_part1 + size_of_header32)) _ e in
      let r = >>=-eq-ok (z.read_header32 v.0) _ v.2 in
      let same : HeaderPt2.header32 r.0 ≡ h2 = ground (arith, r.2) in
      rw (← same) (Matches.bits32 r.0, slice_range-room _ _ _ _ v.1)
  read_part2-Matches Class.sixty_four h2 e =
      let v = >>=-eq-ok (slice_range bytes size_of_part1 (size_of_part1 + size_of_header64)) _ e in
      let r = >>=-eq-ok (z.read_header64 v.0) _ v.2 in
      let same : HeaderPt2.header64 r.0 ≡ h2 = ground (arith, r.2) in
      rw (← same) (Matches.bits64 r.0, slice_range-room _ _ _ _ v.1)
  read_part2-Matches _ h2 e = absurd (ground (arith, e))

  with_parts-IsOpened :
      (h1 : HeaderPt1) (h2 : ParseResult HeaderPt2) (elf : ElfFile)
      → read_part2 z bytes (get_class h1) ≡ ok h2
      → with_parts z bytes h1 h2 ≡ success elf
      → IsOpened bytes elf
  with_parts-IsOpened h1 (success h2) elf e same =
      let m = read_part2-Matches (get_class h1) h2 e in
      let built : record { input = bytes; header_part1 = h1; header_part2 = h2 } ≡ elf =
        ground (arith, same) in
      rw (← built) record { same_input = refl; matches = m.0; room = m.1 }
  with_parts-IsOpened h1 (failure p) elf e same = absurd (ground (arith, same))

  -- A file that `ElfFile::new` opens keeps its bytes, has a class of 32 or of 64 bits and a second
  -- header of that width, and is long enough for both headers.
  pub new-IsOpened : (elf : ElfFile) → new z bytes ≡ ok (success elf) → IsOpened bytes elf
  unfolding new
  new-IsOpened elf h = elim (Bool-cases (ltb (length bytes) size_of_part1)) [
    | inl short ↦ absurd (ground (arith, short, h))
    | inr long ↦
        let v = >>=-eq-ok (slice_range bytes 0 size_of_part1) _ (rw (long) at h) in
        let h1 = >>=-eq-ok (z.read_part1 v.0) _ v.2 in
        let h2 = >>=-eq-ok (read_part2 z bytes (get_class h1.0)) _ h1.2 in
        with_parts-IsOpened h1.0 h2.0 elf h2.1 (ground (arith, h2.2))
  ]
