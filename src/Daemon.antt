-- ===== src/Daemon.antt =====
-- The program of src/daemon/main.cpp.
pub mod Options
pub mod Arguments
pub mod Main
pub mod Status
