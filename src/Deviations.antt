-- ===== src/Deviations.antt =====
-- Where src/frontend/instruction.rs decodes otherwise than the manuals. Each theorem says what the
-- code returns, for every operand.
pub mod Upper
pub mod Stack
pub mod Reserved
pub mod BitImm
pub mod ByteOps
