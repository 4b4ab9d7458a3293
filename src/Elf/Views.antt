-- ===== src/Elf/Views.antt =====
-- The bytes that the headers of src/frontend/elf.rs name: `raw_data`.
use double_jit_vm.Prelude.{
  ℕ, ◌+◌, ◌-◌, ◌≤◌, ◌≡◌, ◌≢◌, refl, ap, sym, Bool-cases, inl, inr, true, List, length, take, drop,
  if◌then◌else◌, arith,
}
use double_jit_vm.Prelude.Outcome.{Outcome, ok, panic, assertion_failed, >>=-eq-ok}
use double_jit_vm.Page.{ParseResult, success, failure}
use double_jit_vm.Elf.Kinds.{SectionHeaderType, ProgramHeaderType}
use double_jit_vm.Elf.Section
use double_jit_vm.Elf.Section.{SectionHeader, get_section_type, get_size}
use double_jit_vm.Elf.Program
use double_jit_vm.Elf.Program.{ProgramHeader, get_type_result, get_file_size, unwrap_result}
use double_jit_vm.Elf.Zero.{Slice, slice_range, add_checked}
use double_jit_vm.Elf.File.{ElfFile}
use double_jit_vm.Elf.Data.{section_raw_data, segment_raw_data, segment_end, is_null, is_segment}

-- The view is `size` bytes of the file from `offset` on, all of which the file has.
pub record IsView (input : List ℕ) (offset size : ℕ) (view : Slice) : Type 0 where
  pub at_offset : view.place ≡ offset
  pub in_file : offset + size ≤ length input
  pub same_bytes : view.bytes ≡ take size (drop offset input)

pub slice_range-IsView :
    (input : List ℕ) (offset size end : ℕ) (view : Slice)
    → end ≡ offset + size
    → slice_range input offset end ≡ ok view
    → IsView input offset size view
unfolding slice_range
slice_range-IsView input offset size end view e h =
    let cut : end - offset ≡ size = omega (arith, e) in
    let same : record { place = offset; bytes = take (end - offset) (drop offset input) } ≡ view =
      ground (arith, h) in
    record {
      at_offset = ap (λ v. v.place) (sym same);
      in_file = ground (arith, e, h);
      same_bytes = rw (← cut) (ap (λ v. v.bytes) (sym same));
    }

pub add_checked-sum : (w a b c : ℕ) → add_checked w a b ≡ ok c → c ≡ a + b
unfolding add_checked
add_checked-sum w a b c h = ground (arith, h)

unwrap_result-eq {ℓ} :
    {A : Type ℓ} (r : ParseResult A) (a : A) → unwrap_result r ≡ ok a → r ≡ success a
unwrap_result-eq (success b) a h = ground (arith, h)
unwrap_result-eq (failure e) a h = absurd (ground (arith, h))

past_null :
    (kind : SectionHeaderType) (m : Outcome Slice) (view : Slice)
    → (if is_null kind then panic assertion_failed else m) ≡ ok view
    → (m ≡ ok view) × (kind ≢ SectionHeaderType.section_null)
past_null SectionHeaderType.section_null m view h = absurd (ground (arith, h))
past_null _ m view h = (h, λ q. cc)

-- What `raw_data` of a section header answers with is the part of the file at the offset and of the
-- size that the header names, all of it in the file, and the header is of a known type other than the
-- null one.
pub section_raw_data-IsView :
    (file : ElfFile) (sh : SectionHeader) (view : Slice)
    → section_raw_data file sh ≡ ok view
    → IsView file.input (Section.get_offset sh) (get_size sh) view
      × ((kind : SectionHeaderType) × (get_section_type sh ≡ success kind)
          × (kind ≢ SectionHeaderType.section_null))
unfolding section_raw_data
section_raw_data-IsView file sh view h =
    let kind = >>=-eq-ok (unwrap_result (get_section_type sh)) _ h in
    let known = past_null kind.0 _ view kind.2 in
    let end = >>=-eq-ok (add_checked 64 (Section.get_offset sh) (get_size sh)) _ known.0 in
    (
      slice_range-IsView file.input (Section.get_offset sh) (get_size sh) end.0 view
          (add_checked-sum 64 _ _ end.0 end.1) end.2,
      (kind.0, unwrap_result-eq _ _ kind.1, known.1),
    )

segment_end-sum :
    (ph : ProgramHeader) (c : ℕ)
    → segment_end ph ≡ ok c
    → c ≡ Program.get_offset ph + get_file_size ph
unfolding segment_end Program.get_offset get_file_size
segment_end-sum (ProgramHeader.program_header32 p) c h = add_checked-sum 32 p.offset p.file_size c h
segment_end-sum (ProgramHeader.program_header64 p) c h = add_checked-sum 64 p.offset p.file_size c h

is_segment-kind :
    (r : ParseResult ProgramHeaderType)
    → is_segment r ≡ true
    → (kind : ProgramHeaderType) × (r ≡ success kind) × (kind ≢ ProgramHeaderType.null)
is_segment-kind (success ProgramHeaderType.null) h = cc
is_segment-kind (success kind) h = (kind, refl, λ q. cc)
is_segment-kind (failure e) h = cc

-- The same of a program header.
pub segment_raw_data-IsView :
    (file : ElfFile) (ph : ProgramHeader) (view : Slice)
    → segment_raw_data file ph ≡ ok view
    → IsView file.input (Program.get_offset ph) (get_file_size ph) view
      × ((kind : ProgramHeaderType) × (get_type_result ph ≡ success kind)
          × (kind ≢ ProgramHeaderType.null))
unfolding segment_raw_data
segment_raw_data-IsView file ph view h = elim (Bool-cases (is_segment (get_type_result ph))) [
  | inr unfit ↦ absurd (ground (arith, unfit, h))
  | inl fit ↦
      let end = >>=-eq-ok (segment_end ph) _ (rw (fit) at h) in
      (
        slice_range-IsView file.input (Program.get_offset ph) (get_file_size ph) end.0 view
            (segment_end-sum ph end.0 end.1) end.2,
        is_segment-kind (get_type_result ph) fit,
      )
]
