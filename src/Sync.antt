-- ===== src/Sync.antt =====
-- sync/: the events of the SSE stream, the replay history with its bus, and one pass of the sync.
pub mod Events
pub mod History
pub mod Poll
pub mod Watch
