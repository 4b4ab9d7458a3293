-- ===== src/Elf/Content.antt =====
-- What a section or a segment holds: `SectionData`, `SegmentData` and their entries, in
-- src/frontend/elf.rs. `&'a [u8]` is the list of the bytes.
use double_jit_vm.Prelude.{ℕ, List}
use double_jit_vm.Elf.Zero.{Dynamic}

pub record Rela : Type 0 where
  pub offset : ℕ
  pub info : ℕ
  pub addend : ℕ

pub record Rel : Type 0 where
  pub offset : ℕ
  pub info : ℕ

pub record Entry32_ : Type 0 where
  pub name : ℕ
  pub value : ℕ
  pub size : ℕ
  pub info : ℕ
  pub other : ℕ
  pub shndx : ℕ

pub record Entry64_ : Type 0 where
  pub name : ℕ
  pub info : ℕ
  pub other : ℕ
  pub shndx : ℕ
  pub value : ℕ
  pub size : ℕ

pub record Entry128_ : Type 0 where
  pub name : ℕ
  pub info : ℕ
  pub other : ℕ
  pub shndx : ℕ
  pub value : ℕ
  pub size : ℕ

pub data Entry32 : Type 0 where
  entry : Entry32_ → Entry32

pub data Entry64 : Type 0 where
  entry : Entry64_ → Entry64

pub data Entry128 : Type 0 where
  entry : Entry128_ → Entry128

pub data DynEntry32 : Type 0 where
  entry : Entry32_ → DynEntry32

pub data DynEntry64 : Type 0 where
  entry : Entry64_ → DynEntry64

pub data DynEntry128 : Type 0 where
  entry : Entry128_ → DynEntry128

pub record NoteHeader : Type 0 where
  pub name_size : ℕ
  pub desc_size : ℕ
  pub type_ : ℕ

pub record HashTable : Type 0 where
  pub bucket_count : ℕ
  pub chain_count : ℕ
  pub first_bucket : ℕ

pub data SectionData : Type 0 where
  empty : SectionData
  undefined : List ℕ → SectionData
  group : ℕ → List ℕ → SectionData
  str_array : List ℕ → SectionData
  fn_array32 fn_array64 fn_array128 : List ℕ → SectionData
  symbol_table32 : List Entry32 → SectionData
  symbol_table64 : List Entry64 → SectionData
  symbol_table128 : List Entry128 → SectionData
  dyn_symbol_table32 : List DynEntry32 → SectionData
  dyn_symbol_table64 : List DynEntry64 → SectionData
  dyn_symbol_table128 : List DynEntry128 → SectionData
  sym_tab_sh_index : List ℕ → SectionData
  note32 note64 note128 : NoteHeader → List ℕ → SectionData
  rela32 rela64 rela128 : List Rela → SectionData
  rel32 rel64 rel128 : List Rel → SectionData
  dynamic32 dynamic64 dynamic128 : List Dynamic → SectionData
  hash_table : HashTable → SectionData

pub data SegmentData : Type 0 where
  empty : SegmentData
  undefined : List ℕ → SegmentData
  dynamic32 dynamic64 dynamic128 : List Dynamic → SegmentData
  note64 : NoteHeader → List ℕ → SegmentData

-- The tags of a dynamic section, which no code reads: `Dynamic` keeps the bare number.
pub data Tag (P : Type 0) : Type 0 where
  null needed plt_rel_size pltgot hash str_tab sym_tab rela rela_size rela_ent : Tag P
  str_size sym_ent init fini so_name r_path symbolic rel rel_size rel_ent : Tag P
  plt_rel debug text_rel jmp_rel bind_now init_array fini_array : Tag P
  init_array_size fini_array_size run_path flags pre_init_array pre_init_array_size : Tag P
  sym_tab_sh_index flags1 : Tag P
  os_specific processor_specific : P → Tag P

-- The visibilities of a symbol, by their discriminants from 0 on.
pub data Visibility : Type 0 where
  default internal hidden protected : Visibility
