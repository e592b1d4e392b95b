-- ===== src/Utils.antt =====
-- The utils/ folder of the library.
pub mod RingBuffer
pub mod Hash
pub mod Base64
mod Tests
