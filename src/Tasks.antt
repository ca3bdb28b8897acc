-- ===== src/Tasks.antt =====
-- The background tasks: their states, the built-in ones, the registry and the manager.
pub mod State
pub mod Registry
pub mod Builtin
pub mod Manager
