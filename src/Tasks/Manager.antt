-- ===== src/Tasks/Manager.antt =====
-- `TaskManager` of src/tasks/task_manager.cpp.
pub mod Defs
pub mod Calls
pub mod Ids
pub mod Null
pub mod Shutdown
pub mod Waiting
