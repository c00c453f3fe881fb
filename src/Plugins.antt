-- ===== src/Plugins.antt =====
-- The plugins: crates/barbacane-plugin-sdk/src, plugins/acl and plugins/ip-restriction.
pub mod Sdk
pub mod Acl
pub mod IpRestriction
mod Ranges
mod Spoofing
mod Forwarding
mod Policy
mod Runs
