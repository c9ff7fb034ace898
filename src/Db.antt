-- ===== src/Db.antt =====
-- db/: the databases of QQ, opened in place.
pub mod Offset
