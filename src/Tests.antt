-- ===== src/Tests.antt =====
-- Runs of the model on the inputs of the repository's own tests, and the theorems at concrete inputs.
pub mod Runs
pub mod Decode
pub mod Compressed
pub mod State
pub mod Typed
pub mod Iter
pub mod File
pub mod Loader
