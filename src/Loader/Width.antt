-- ===== src/Loader/Width.antt =====
-- `BIT_LENGTH` after `Binary::parse` of src/frontend/binary.rs.
use double_jit_vm.Prelude.{ℕ, ◌≡◌, ◌⊎◌, inl, inr, refl, List}
use double_jit_vm.Prelude.Outcome.{ok}
use double_jit_vm.Page.{success}
use double_jit_vm.Elf.Kinds.{Class}
use double_jit_vm.Elf.Header.{HeaderPt2, get_class}
use double_jit_vm.Elf.Zero.{Zero}
use double_jit_vm.Elf.File.{ElfFile, new}
use double_jit_vm.Elf.Opened.{Matches, new-IsOpened}
use double_jit_vm.Loader.{set_bit_length, opened, parse}

module _ (z : Zero) (bytes : List ℕ) (before : ℕ) (elf : ElfFile) where
  set_bit_length-width :
      (c : Class) (h2 : HeaderPt2)
      → Matches c h2
      → ((c ≡ Class.thirty_two) × ((set_bit_length z bytes before elf c).bit_length ≡ 0))
        ⊎ ((c ≡ Class.sixty_four) × ((set_bit_length z bytes before elf c).bit_length ≡ 1))
  unfolding set_bit_length
  set_bit_length-width c h2 (Matches.bits32 h) = inl (refl, refl)
  set_bit_length-width c h2 (Matches.bits64 h) = inr (refl, refl)

  -- On a file that opens, `Binary::parse` sets `BIT_LENGTH` to 0 for the class of 32 bits and to 1
  -- for that of 64 bits, whatever it was before and however the parse ends; there is no other class,
  -- so that it is never set to 2.
  pub parse-bit_length :
      new z bytes ≡ ok (success elf)
      → ((get_class elf.header_part1 ≡ Class.thirty_two) × ((parse z bytes before).bit_length ≡ 0))
        ⊎ ((get_class elf.header_part1 ≡ Class.sixty_four)
            × ((parse z bytes before).bit_length ≡ 1))
  unfolding parse opened
  parse-bit_length e =
      let m = (new-IsOpened z bytes elf e).matches in
      rw (e) (set_bit_length-width (get_class elf.header_part1) elf.header_part2 m)
