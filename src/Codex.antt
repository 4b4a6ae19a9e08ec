-- ===== src/Codex.antt =====
-- The Codex CLI (src/codex_binary.rs) and the client that keeps one app-server of it running
-- (src/app_server.rs).
pub mod Binary
pub mod Runtime
pub mod Ready
mod Tests
