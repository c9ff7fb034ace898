-- ===== src/Proto.antt =====
-- parser/proto.rs: the wire-format reader of the "40800" message body.
pub mod Cursor
pub mod Encode
pub mod Varint
pub mod Segment
pub mod Body
pub mod Reads
pub mod RoundTrip
pub mod BodyRoundTrip
