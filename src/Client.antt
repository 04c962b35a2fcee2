-- ===== src/Client.antt =====
-- The Go client: sdk/go/client.
pub mod Types
pub mod Call
pub mod Messages
pub mod Calls
pub mod Lines
pub mod Events
pub mod Streaming
pub mod Channels
pub mod Tests
