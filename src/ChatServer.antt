-- ===== src/ChatServer.antt =====
-- chat/server.go: the handlers of the chat service. `Authorize` runs before each handler, which is
-- given the user that it returns.
pub mod Reads
pub mod Settings
pub mod Members
pub mod Starting
pub mod Streaming
pub mod Examples
