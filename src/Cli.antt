-- ===== src/Cli.antt =====
-- The command line: the package cmd/authzen.
pub mod Options
pub mod Evaluate
pub mod Commands
pub mod Run
pub mod Codes
pub mod Gate
mod Tests
