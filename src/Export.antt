-- ===== src/Export.antt =====
-- export.rs: the bulk export of conversations to files.
pub mod Json
pub mod Secret
pub mod Names
pub mod Writer
pub mod Round
pub mod Run
