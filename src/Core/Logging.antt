-- ===== src/Core/Logging.antt =====
-- The logger of src/core/logger.cpp, and the levels of include/demo_daemon/core/types.hpp.
pub mod Level
pub mod Logger
pub mod Prefix
pub mod Filter
