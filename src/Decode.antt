-- ===== src/Decode.antt =====
-- `Instruction::parse` of src/frontend/instruction.rs: the compressed decoder first, then the
-- dispatch on the opcode of a 32-bit word.
pub mod Config
pub mod Format
pub mod Base
pub mod OpImm
pub mod Op
pub mod System
pub mod Float
pub mod Parse
pub mod Full
pub mod Orderly
pub mod Typed
pub mod Unknown
pub mod Behind
