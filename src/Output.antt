-- ===== src/Output.antt =====
-- pkg/audio/output: the playback device and the samples on their way to it.
pub mod RingBuffer
pub mod Malgo
pub mod Device
mod Tests
