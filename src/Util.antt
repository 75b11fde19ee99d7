-- ===== src/Util.antt =====
-- The containers of src/util.
pub mod GrowingBuffer
pub mod LinkedList
pub mod Map
pub mod Hash
pub mod Dictionary
mod Tests
