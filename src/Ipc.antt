-- ===== src/Ipc.antt =====
-- The inter-process part: the messages, their framing, the sessions and the socket server.
pub mod Protocol
pub mod Framing
pub mod Buffer
pub mod Session
pub mod Connections
pub mod Server
