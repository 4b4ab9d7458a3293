-- ===== src/Isa.antt =====
-- An independent description of the instruction encodings, after the RISC-V manuals: the layout of
-- each format as a sum of its fields, and for each mnemonic its opcode and function codes. The
-- theorems on the decoder of src/frontend/instruction.rs are stated against it.
pub mod Words
pub mod RegOps
pub mod ImmOps
pub mod ShiftOps
pub mod BitOps
pub mod SystemOps
pub mod FloatOps
pub mod FloatConvert
pub mod FloatMisc
pub mod OtherOps
pub mod Halves
pub mod Hints
pub mod Compressed
