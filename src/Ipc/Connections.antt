-- ===== src/Ipc/Connections.antt =====
-- `ConnectionManager` of src/ipc/connection_manager.cpp.
pub mod Manager
pub mod Linked
pub mod Keys
pub mod Among
pub mod Pool
