-- ===== src/Ipc/Framing.antt =====
-- `JsonProtocolParser` of src/ipc/json_protocol.cpp: one message to a line, with a limit on its size.
pub mod Scan
pub mod Errors
pub mod Parser
pub mod Lines
