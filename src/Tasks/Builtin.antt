-- ===== src/Tasks/Builtin.antt =====
-- The tasks of src/tasks/builtin. `HeartbeatTask` and `SleepTask` differ in their loops only.
pub mod Worker
pub mod Loops
pub mod Factory
