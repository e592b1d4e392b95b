-- ===== src/Web.antt =====
-- The web server of webserver/: a client's queue of data to send, and what it does with a request.
pub mod Client
pub mod Sending
pub mod Response
pub mod Chunks
pub mod Request
pub mod Auth
pub mod Serving
pub mod Observer
pub mod TcpServer
pub mod Answers
pub mod Engine
pub mod Framing
pub mod Query
mod Matching
mod Tests
