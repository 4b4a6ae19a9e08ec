-- ===== src/ThreadState.antt =====
-- The read state of threads (src/thread_state.rs): one JSON file that the connector owns, one that the
-- desktop owns and the connector only reads, and the list items that they enrich.
-- The HashMap of entries is a map in the order of its keys, so `!=` on maps is `!=` on lists.
pub mod Disk
pub mod Enrich
pub mod Unread
pub mod Reload
pub mod Repeat
mod Tests
