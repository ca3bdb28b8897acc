-- ===== src/Ipc/Session.antt =====
-- `Session` of src/ipc/session_manager.cpp and include/demo_daemon/ipc/session_manager.hpp.
pub mod Defs
pub mod Read
pub mod Write
pub mod Deliver
pub mod Room
pub mod Stall
pub mod Loop
pub mod Silent
pub mod World
pub mod Send
pub mod Overflow
pub mod Cuts
pub mod Chunks
pub mod Growth
pub mod Pieces
