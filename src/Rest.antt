-- ===== src/Rest.antt =====
-- The REST engine of rest/.
pub mod Parameters
pub mod Engine
pub mod Query
pub mod Stored
pub mod Required
pub mod Dispatch
pub mod Removing
pub mod Describe
pub mod Swagger
mod Tests
