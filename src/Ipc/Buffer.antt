-- ===== src/Ipc/Buffer.antt =====
-- `IOBuffer` of include/demo_daemon/ipc/session.hpp.
pub mod Ops
pub mod View
pub mod Sizes
pub mod Queue
