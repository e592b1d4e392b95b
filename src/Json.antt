-- ===== src/Json.antt =====
-- The json/ folder of the library.
pub mod Types
pub mod Scan
pub mod Number
pub mod Property
pub mod Escape
pub mod Node
pub mod Decimal
pub mod Edit
pub mod Keys
pub mod Adding
pub mod Root
pub mod PathQuery
pub mod Moving
pub mod Files
pub mod Print
pub mod Parse
pub mod Quoted
pub mod Compact
pub mod Spaces
pub mod Closing
pub mod Values
pub mod Join
pub mod Rounds
pub mod Steps
pub mod RoundTrip
mod Tests
