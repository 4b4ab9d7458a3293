-- ===== src/Elf/Utf8.antt =====
-- `std::str::from_utf8`, as src/frontend/elf.rs uses it: which bytes are well-formed UTF-8.
use double_jit_vm.Prelude.{
  ℕ, Bool, true, false, List, [], ◌∷◌, Option, none, some, leb, ltb, ◌==◌, ◌&&◌, if◌then◌else◌,
}

-- The bytes that may follow a lead byte, each as a range: no overlong form, no surrogate, nothing
-- above U+10FFFF.
unfoldable pub continuation : ℕ → Option (List (ℕ × ℕ))
continuation lead =
    if ltb lead 0x80
    then some []
    else if leb 0xc2 lead && leb lead 0xdf
    then some ((0x80, 0xbf) ∷ [])
    else if lead == 0xe0
    then some ((0xa0, 0xbf) ∷ (0x80, 0xbf) ∷ [])
    else if lead == 0xed
    then some ((0x80, 0x9f) ∷ (0x80, 0xbf) ∷ [])
    else if leb 0xe1 lead && leb lead 0xef
    then some ((0x80, 0xbf) ∷ (0x80, 0xbf) ∷ [])
    else if lead == 0xf0
    then some ((0x90, 0xbf) ∷ (0x80, 0xbf) ∷ (0x80, 0xbf) ∷ [])
    else if leb 0xf1 lead && leb lead 0xf3
    then some ((0x80, 0xbf) ∷ (0x80, 0xbf) ∷ (0x80, 0xbf) ∷ [])
    else if lead == 0xf4
    then some ((0x80, 0x8f) ∷ (0x80, 0xbf) ∷ (0x80, 0xbf) ∷ [])
    else none

-- `due` are the ranges of the bytes that the character begun before still wants.
unfoldable pub is_utf8_from : List (ℕ × ℕ) → List ℕ → Bool
is_utf8_from [] [] = true
is_utf8_from (d ∷ due) [] = false
is_utf8_from ((lo, hi) ∷ due) (b ∷ bytes) = leb lo b && leb b hi && is_utf8_from due bytes
is_utf8_from [] (b ∷ bytes) = elim (continuation b) [
  | none ↦ false
  | some due ↦ is_utf8_from due bytes
]

unfoldable pub is_utf8 : List ℕ → Bool
is_utf8 bytes = is_utf8_from [] bytes
