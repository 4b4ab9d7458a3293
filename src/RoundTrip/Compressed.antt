-- ===== src/RoundTrip/Compressed.antt =====
-- The compressed decoder of src/frontend/instruction.rs against the encodings of the manuals.
pub mod Key
pub mod Quadrant0
pub mod Quadrant1
pub mod Alu
pub mod Quadrant2
pub mod Hints
pub mod All
