-- ===== src/Validator.antt =====
-- crates/barbacane/src/validator.rs: the checks of a request before it is dispatched.
pub mod Limits
pub mod Params
pub mod Operation
pub mod Decode
pub mod Escapes
pub mod Pollution
pub mod Runs
