-- ===== src/WebSocket.antt =====
-- The websocket/ folder of the library.
pub mod Frame
pub mod Parser
pub mod Connection
pub mod Stream
pub mod Clients
pub mod Delivery
pub mod Stall
pub mod Sizes
pub mod Handshake
pub mod Upgrade
pub mod Server
mod Tests
