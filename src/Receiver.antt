-- ===== src/Receiver.antt =====
-- pkg/sendspin/receiver.go: what a player does with the server's messages.
pub mod Metadata
pub mod Formats
pub mod TimeSync
pub mod Streaming
mod Tests
