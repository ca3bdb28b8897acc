-- ===== src/Ipc/Server.antt =====
-- `UnixSocketServer` of src/ipc/unix_socket_server.cpp.
pub mod Defs
pub mod Events
pub mod Routes
pub mod Answers
pub mod Around
pub mod Holding
pub mod Order
pub mod History
pub mod Setup
pub mod Lifecycle
pub mod Threads
pub mod Ending
pub mod Idle
