-- ===== src/RoundTrip.antt =====
-- The decoder of src/frontend/instruction.rs against the encodings of the manuals: decoding the word
-- of an instruction gives that instruction.
pub mod Reg
pub mod Imm
pub mod Control
pub mod Shift
pub mod Atomic
pub mod Csr
pub mod Float
pub mod Fma
pub mod FloatMisc
pub mod Other
pub mod Compressed
