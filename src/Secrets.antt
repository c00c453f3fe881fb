-- ===== src/Secrets.antt =====
-- crates/barbacane-wasm/src/secrets.rs: secret references in plugin configurations.
pub mod Json
pub mod Store
pub mod Resolve
mod Confinement
mod Substitute
mod Complete
mod Runs
