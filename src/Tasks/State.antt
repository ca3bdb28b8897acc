-- ===== src/Tasks/State.antt =====
-- `TaskState` and `ITask` of include/demo_daemon/tasks/itask.hpp.
use test_ai_agent.Prelude.{String, Bool}
use test_ai_agent.Prelude.Exec.{Exec}

pub data TaskState : Type 0 where
  pending running stopping stopped failed : TaskState

unfoldable pub task_state_to_string : TaskState → String
task_state_to_string pending = "pending"
task_state_to_string running = "running"
task_state_to_string stopping = "stopping"
task_state_to_string stopped = "stopped"
task_state_to_string failed = "failed"

-- The interface of a task: what it shows, and what each call makes of it. The stop token of `start`
-- is shared with the manager's entry; `wait_stopped` gives the task as its worker leaves it. Both may
-- throw.
pub record ITask (T : Type 0) : Type 0 where
  pub id : T → String
  pub type : T → String
  pub description : T → String
  pub state : T → TaskState
  pub last_error : T → String
  pub start : T → T × Exec Bool
  pub request_stop : T → T
  pub wait_stopped : T → T × Exec Bool
