-- ===== src/Compiler.antt =====
-- crates/barbacane-compiler/src: from API specifications to the routes of an artifact.
pub mod Errors
pub mod Refs
pub mod Specs
pub mod Schemas
pub mod Templates
pub mod Settings
pub mod Operations
pub mod Compile
pub mod Parser
pub mod Routes
