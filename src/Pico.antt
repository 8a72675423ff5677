-- ===== src/Pico.antt =====
-- The parts of the picoTCP stack (paths are from src/picotcp) that the wrapper and the driver stand on.
pub mod Words
pub mod Heap
pub mod Timers
pub mod Sequence
pub mod Addresses
pub mod Checksum
pub mod Queue
pub mod Frames
pub mod Routes
pub mod Forwarding
mod Tests
