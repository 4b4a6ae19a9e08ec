-- ===== src/Invoke.antt =====
-- The handlers of the remote calls (src/invoke.rs).
pub mod Params
pub mod Threads
pub mod Merge
pub mod Unique
pub mod Indexed
pub mod Once
pub mod Paging
pub mod Rounds
pub mod Listed
pub mod Host
pub mod Roots
pub mod Projects
pub mod Catalog
pub mod Handlers
pub mod Dispatch
pub mod Pages
pub mod Keyed
pub mod Distinct
pub mod Sent
mod Tests
