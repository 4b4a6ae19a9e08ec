-- ===== src/Cli.antt =====
-- The command line (src/cli.rs) and the start in the background (`daemonize` of src/process_runtime.rs).
pub mod Arguments
pub mod Settings
pub mod Commands
pub mod Line
pub mod Options
pub mod Stop
mod Tests
