-- ===== src/Patcher.antt =====
-- The parts of src/patcher that compute without the target process.
pub mod Registers
pub mod Aliases
pub mod Frames
pub mod Search
mod Tests
