-- ===== src/Commands.antt =====
-- The commands of the daemon: src/core/command_registry.cpp, src/commands and the handler that
-- src/daemon/main.cpp gives to the server.
pub mod Registry
pub mod Builtin
pub mod Main
pub mod Handler
pub mod Crash
