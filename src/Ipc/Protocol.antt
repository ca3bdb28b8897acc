-- ===== src/Ipc/Protocol.antt =====
-- The messages of src/ipc/json_protocol.cpp and include/demo_daemon/ipc/json_protocol.hpp.
pub mod Code
pub mod Fields
pub mod Error
pub mod Request
pub mod Response
pub mod ErrorResponse
pub mod Message
pub mod RoundTrip
