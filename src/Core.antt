-- ===== src/Core.antt =====
-- The parts of src/core, with the loop of src/daemon/main.cpp that they serve.
pub mod Signals
pub mod Results
pub mod Logging
