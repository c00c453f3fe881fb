-- ===== src/Gateway.antt =====
-- crates/barbacane/src/main.rs: how the gateway runs the middlewares of an operation, and answers.
pub mod Requests
pub mod Responses
pub mod Replies
pub mod Incoming
pub mod Serving
mod Isolation
mod Tolerance
mod Runs
