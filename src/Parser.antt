-- ===== src/Parser.antt =====
-- parser/mod.rs: from the segments of a message body to the parsed message.
pub mod Structured
pub mod Heuristic
