-- ===== src/Server.antt =====
-- server/mod.rs: the account registration machinery of the HTTP service.
pub mod Serving
pub mod Accounts
pub mod Locations
pub mod Registry
pub mod Pull
pub mod Purge
pub mod Requests
