-- ===== src/Tasks/Manager/Defs.antt =====
-- The manager and its operations. Each part under the mutex is one step.
use Prim.Native.String.{◌++◌ as append}
use test_ai_agent.Prelude.{
  ℕ, ◌+◌, ◌%◌, ◌^◌, String, Bool, false, [], Option, none, some, length, text_key, if◌then◌else◌,
}
use test_ai_agent.Prelude.Decimal.{to_string}
use test_ai_agent.Prelude.Exec.{Exec, returns, throws, crashes}
use test_ai_agent.Prelude.Maps.{Map, lookup, insert}
use test_ai_agent.Tasks.Registry.{TaskRegistry, create_task}

-- `task` is a `std::unique_ptr`; a time point is a count of ticks.
pub record TaskEntry (T : Type 0) : Type 0 where
  pub task : Option T
  pub stop_requested : Bool  -- of `stop_source`
  pub is_running : Bool  -- `running`
  pub created_at : ℕ
  pub started_at : ℕ
  pub stopped_at : ℕ

pub record TaskManager (T : Type 0) (Json : Type 0) : Type 0 where
  pub registry : TaskRegistry T Json
  pub tasks : Map String (TaskEntry T)
  pub next_task_id : ℕ
  pub shutdown_requested : Bool

-- `std::move` of a unique pointer: its value, and the null pointer that it leaves.
abbrev pub move : {T : Type 0} → Option T → Option T × Option T
move p = (p, none)

unfoldable pub task_id : ℕ → String
task_id n = append "task_" (to_string n)

module _ {T Json : Type 0} where
  -- The constructor refuses a null pointer.
  unfoldable pub new_manager : Option (TaskRegistry T Json) → Exec (TaskManager T Json)
  new_manager none = throws "TaskRegistry cannot be null"
  new_manager (some registry) =
      returns
        (record { registry = registry; tasks = []; next_task_id = 0; shutdown_requested = false })

  -- The two entries of `add_task`: the pointer is moved into the first, and then again, empty,
  -- into the second, which is the one that the map gets.
  unfoldable pub insert_task :
      String → Option T → ℕ → TaskManager T Json → TaskManager T Json × Exec String
  insert_task id task now m =
      let (outer, task') = move task in
      let (inner, task'') = move task' in
      let entry : TaskEntry T = record {
        task = inner;
        stop_requested = false;
        is_running = false;
        created_at = now;
        started_at = 0;
        stopped_at = 0;
      } in
      elim (lookup id m.tasks) [
        | some present ↦ (m, returns "")
        | none ↦ (record m { tasks = insert id entry m.tasks }, returns id)
      ]

  unfoldable pub add_task :
      String → Json → ℕ → TaskManager T Json → TaskManager T Json × Exec String
  add_task type params now m =
      let id = task_id m.next_task_id in
      let counted = record m { next_task_id = (m.next_task_id + 1) % 2 ^ 64 } in
      if m.shutdown_requested
      then (m, returns "")
      else elim (create_task type id params m.registry) [
        | returns none ↦ (counted, returns "")
        | returns (some task) ↦ insert_task id (some task) now counted
        | throws e ↦ (counted, throws e)
        | crashes ↦ (counted, crashes)
      ]

  unfoldable pub total_count : TaskManager T Json → ℕ
  total_count m = length m.tasks
