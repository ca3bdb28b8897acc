-- ===== src/Cli.antt =====
-- The command line client of src/cli.
pub mod Socket
pub mod Client
pub mod Exchange
pub mod Errors
pub mod Strtol
pub mod Options
pub mod TaskArgs
pub mod Report
pub mod Main
pub mod Talk
pub mod Plain
pub mod Reports
pub mod Numbers
pub mod Settings
pub mod Status
pub mod Silence
