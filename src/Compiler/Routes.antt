-- ===== src/Compiler/Routes.antt =====
-- crates/barbacane-compiler/src/artifact.rs and crates/barbacane/src/main.rs: the routes of an artifact,
-- from the checks of the compiler to the gateway's router.
pub mod Distinct
pub mod Accepted
pub mod Segments
pub mod Shapes
pub mod Registered
pub mod Artifact
pub mod Collisions
mod Runs
