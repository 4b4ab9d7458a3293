-- ===== src/Elf.antt =====
-- src/frontend/elf.rs: the reader of ELF files. A field is a number below the bound of its width, so
-- that `as u64` and `as usize` change nothing. Where the source reads bytes through the crate `zero`,
-- the reader is a parameter (`Elf.Zero`).
pub mod Kinds
pub mod Header
pub mod Section
pub mod Program
pub mod Zero
pub mod Content
pub mod Print
pub mod File
pub mod Opened
pub mod Iter
pub mod Utf8
pub mod Interpreter
pub mod Data
pub mod Views
