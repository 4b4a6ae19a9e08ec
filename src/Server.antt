-- ===== src/Server.antt =====
-- The HTTP server (src/main.rs, src/management.rs, src/invoke_dispatch.rs).
pub mod Token
pub mod Compare
pub mod Framing
pub mod Routes
pub mod Guarded
mod Tests
