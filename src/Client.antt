-- ===== src/Client.antt =====
-- clients/rust/src/client.rs: the client library.
pub mod Stream
