-- ===== src/Elf/Interpreter/Laws.antt =====
-- What `ElfFile::parse_interpreter` of src/frontend/elf.rs answers with.
use double_jit_vm.Prelude.{
  ℕ, suc, ◌+◌, ◌-◌, ◌≤◌, ◌<◌, ◌≡◌, ◌≢◌, ◌⊎◌, ◌∙◌, inl, inr, refl, ap, sym, true, List, length, take,
  drop, Option, none, some, not, ◌==◌, ◌&&◌, Bool-cases, arith,
}
use double_jit_vm.Prelude.Outcome.{Outcome, ok, >>=-eq-ok}
use double_jit_vm.Page.{success}
use double_jit_vm.Elf.Kinds.{ProgramHeaderType}
use double_jit_vm.Elf.Header.{get_ph_count}
use double_jit_vm.Elf.Program
use double_jit_vm.Elf.Program.{ProgramHeader, get_file_size}
use double_jit_vm.Elf.Section.{SectionHeader}
use double_jit_vm.Elf.Zero.{Zero, slice_range, add_checked}
use double_jit_vm.Elf.File.{ElfFile, parse_program_header}
use double_jit_vm.Elf.Iter.{program_iter, next_program, Flow, go, leave, for_each}
use double_jit_vm.Elf.Iter.Visit.{visit, for_each-headers}
use double_jit_vm.Elf.Iter.Left.{visit-leave}
use double_jit_vm.Elf.Utf8.{is_utf8}
use double_jit_vm.Elf.Views.{slice_range-IsView, add_checked-sum}
use double_jit_vm.Elf.Interpreter.{
  is_interp, interpreter_path, interpreter_turn, interpreter_result, parse_interpreter,
}

-- A header that the search passes by: of another type, or empty.
abbrev pub IsPassed : ProgramHeader → Type 0
IsPassed ph = (Program.get_type ph ≢ ok ProgramHeaderType.interp) ⊎ (get_file_size ph ≡ 0)

-- The path stands in the file where the header says, without the byte that ends it.
pub record IsPath (input : List ℕ) (ph : ProgramHeader) (path : List ℕ) : Type 0 where
  pub kind : Program.get_type ph ≡ ok ProgramHeaderType.interp
  pub size : 0 < get_file_size ph
  pub in_file : Program.get_offset ph + (get_file_size ph - 1) ≤ length input
  pub same_bytes : path ≡ take (get_file_size ph - 1) (drop (Program.get_offset ph) input)
  pub text : is_utf8 path ≡ true

is_interp-eq : (k : ProgramHeaderType) → is_interp k ≡ true → k ≡ ProgramHeaderType.interp
unfolding is_interp
is_interp-eq ProgramHeaderType.interp h = refl
is_interp-eq _ h = cc

interpreter_path-eq :
    (input : List ℕ) (ph : ProgramHeader) (path : List ℕ)
    → interpreter_path input ph ≡ ok path
    → (Program.get_offset ph + (get_file_size ph - 1) ≤ length input)
      × (path ≡ take (get_file_size ph - 1) (drop (Program.get_offset ph) input))
      × (is_utf8 path ≡ true)
unfolding interpreter_path
interpreter_path-eq input ph path h =
    let count = get_file_size ph - 1 in
    let end = >>=-eq-ok (add_checked 64 (Program.get_offset ph) count) _ h in
    let view = >>=-eq-ok (slice_range input (Program.get_offset ph) end.0) _ end.2 in
    let there =
      slice_range-IsView input (Program.get_offset ph) count end.0 view.0
        (add_checked-sum 64 (Program.get_offset ph) count end.0 end.1) view.1 in
    elim (Bool-cases (is_utf8 view.0.bytes)) [
      | inr bad ↦ absurd (ground (arith, bad, view.2))
      | inl good ↦
          let same : view.0.bytes ≡ path = ground (arith, good, view.2) in
          (there.in_file, sym same ∙ there.same_bytes, ap is_utf8 (sym same) ∙ good)
    ]

turn-leave :
    (input : List ℕ) (ph : ProgramHeader) (path : List ℕ)
    → interpreter_turn input ph ≡ ok (leave path)
    → IsPath input ph path
unfolding interpreter_turn
turn-leave input ph path h =
    let kind = >>=-eq-ok (Program.get_type ph) _ h in
    elim (Bool-cases (is_interp kind.0 && not (get_file_size ph == 0))) [
      | inr other ↦ absurd (ground (arith, other, kind.2))
      | inl fits ↦
          let taken = >>=-eq-ok (interpreter_path input ph) _ (rw (fits) at kind.2) in
          let same : taken.0 ≡ path = ground (arith, taken.2) in
          let found = interpreter_path-eq input ph path (rw (same) at taken.1) in
          let interp : is_interp kind.0 ≡ true = ground (arith, fits) in
          record {
            kind = kind.1 ∙ ap ok (is_interp-eq kind.0 interp);
            size = ground (arith, fits);
            in_file = found.0;
            same_bytes = found.1;
            text = found.2;
          }
    ]

turn-go : (input : List ℕ) (ph : ProgramHeader) → interpreter_turn input ph ≡ ok go → IsPassed ph
unfolding interpreter_turn is_interp
turn-go input ph h = elim (Bool-cases (get_file_size ph == 0)) [
  | inl empty ↦ inr (ground (arith, empty))
  | inr full ↦ inl (λ e.
      let turn = rw (e, full) at h in
      let taken = >>=-eq-ok (interpreter_path input ph) _ turn in cc)
]

interpreter_result-path :
    (m : Option (Flow (List ℕ))) (path : List ℕ)
    → interpreter_result m ≡ some (success path)
    → m ≡ some (leave path)
unfolding interpreter_result
interpreter_result-path none path h = cc
interpreter_result-path (some go) path h = cc
interpreter_result-path (some (leave p)) path h = let same : p ≡ path = ground (arith, h) in rw same

module _ (z : Zero) (elf : ElfFile) where
  -- The header that the path was found by, and those before it.
  pub record IsInterpreter (path : List ℕ) : Type 0 where
    pub index : ℕ
    pub header : ProgramHeader
    pub counted : index < get_ph_count elf.header_part2
    pub read : parse_program_header z elf index ≡ ok (success header)
    pub path_of_header : IsPath elf.input header path
    pub first :
        (j : ℕ)
        → j < index
        → (ph : ProgramHeader) × (parse_program_header z elf j ≡ ok (success ph)) × IsPassed ph

  -- A path that `parse_interpreter` answers with is that of the first program header of the
  -- interpreter type that is not empty: the bytes of the file at its offset, all its bytes but the
  -- last, and well-formed UTF-8.
  pub parse_interpreter-success :
      (path : List ℕ) → parse_interpreter z elf ≡ ok (some (success path)) → IsInterpreter path
  unfolding parse_interpreter
  parse_interpreter-success path h =
      let on_section : SectionHeader → Outcome (Flow (List ℕ)) = λ _. ok go in
      let loop =
        >>=-eq-ok
          (for_each (next_program z) (interpreter_turn elf.input)
            (suc (get_ph_count elf.header_part2)) (program_iter elf))
          _ h in
      let ended : loop.0 ≡ some (leave path) =
        interpreter_result-path loop.0 path (ground (arith, loop.2)) in
      let walk = for_each-headers z elf (interpreter_turn elf.input) on_section in
      let visited =
        >>=-eq-ok
          (visit (parse_program_header z elf) (interpreter_turn elf.input)
            (get_ph_count elf.header_part2) 0)
          _ (sym (walk.0) ∙ loop.1 ∙ ap ok ended) in
      let left : visited.0 ≡ leave path = ground (arith, visited.2) in
      let found =
        visit-leave (parse_program_header z elf) (interpreter_turn elf.input)
          (get_ph_count elf.header_part2) 0 path (visited.1 ∙ ap ok left) in
      record {
        index = found.0;
        header = found.1.2.0;
        counted = omega (arith, found.1.1);
        read = found.1.2.1;
        path_of_header = turn-leave elf.input found.1.2.0 path found.1.2.2;
        first = λ j lt.
            let before = found.1.3 j (omega arith) lt in
            (before.0, before.1, turn-go elf.input before.0 before.2);
      }
