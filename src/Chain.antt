-- ===== src/Chain.antt =====
-- crates/barbacane-wasm/src: plugin instances (instance.rs), their errors (error.rs, trap.rs), the
-- middleware chain (chain.rs) and the control of body access (body_access.rs). What runs inside
-- wasmtime, and what serde_json and thiserror generate, is the parameter `Runtime`.
pub mod Errors
pub mod Instance
pub mod Output
pub mod Requests
pub mod Responses
pub mod Body
mod Passing
mod Tolerance
pub mod Runs
