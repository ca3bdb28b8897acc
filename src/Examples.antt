-- ===== src/Examples.antt =====
-- The theorems at concrete inputs, on which their hypotheses hold.
pub mod Data
pub mod Messages
pub mod Sessions
pub mod Servers
pub mod Tasks
pub mod Clients
pub mod Programs
pub mod Systems
