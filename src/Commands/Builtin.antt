-- ===== src/Commands/Builtin.antt =====
-- `execute` of the commands of src/commands.
use Prim.Native.String.{◌++◌ as append}
use test_ai_agent.Prelude.{
  String, List, [], ◌∷◌, map, none, some, text_key, length, str_eq, if◌then◌else◌,
}
use test_ai_agent.Prelude.Int.{pos, neg, to_int32}
use test_ai_agent.Prelude.Outcome.{Outcome}
use test_ai_agent.Prelude.Exec.{Exec, returns, throws, crashes, ◌>>=◌}
use test_ai_agent.Json.{JsonLib}
use test_ai_agent.Tasks.State.{TaskState, pending, running, stopping, stopped, failed, ITask}
use test_ai_agent.Tasks.Manager.Defs.{TaskManager, add_task}
use test_ai_agent.Tasks.Manager.Calls.{TaskInfo, stop_task, list_tasks, active_count}
use test_ai_agent.Commands.Registry.{CommandResult, ok, err, CommandContext, Moment}

-- A call that may throw, among calls that may also crash.
abbrev pub lift {ℓ} : {A : Type ℓ} → Outcome A → Exec A
lift (Outcome.returns a) = returns a
lift (Outcome.throws e) = throws e

-- What comes after a call on the state.
abbrev pub after {ℓ κ} :
    {M : Type 0} {A : Type ℓ} {B : Type κ} → M × Exec A → (A → M → M × Exec B) → M × Exec B
after (m, returns a) next = next a m
after (m, throws e) next = (m, throws e)
after (m, crashes) next = (m, crashes)

-- The chain of conditionals in `TasksListCommand::execute`.
abbrev pub state_name : TaskState → String
state_name running = "running"
state_name stopped = "stopped"
state_name stopping = "stopping"
state_name failed = "failed"
state_name pending = "pending"

module _ {Json : Type 0} (J : JsonLib Json) where
  open J use {object, array, of_string, of_int, member, put, as_string}

  -- `{{"k1", v1}, {"k2", v2}}`
  abbrev pub object_of : List (String × Json) → Json
  object_of fields = fill_in fields object
    where
      fill_in : List (String × Json) → Json → Json
      fill_in [] j = j
      fill_in ((k, v) ∷ more) j = fill_in more (put j k v)

  module _ {M : Type 0} where
    unfoldable pub execute_ping : CommandContext → Moment → Json → M → M × Exec (CommandResult Json)
    execute_ping context clocks params m = (
      m,
      returns
          (ok (object_of (("message", of_string "pong") ∷ ("timestamp", of_int clocks.wall) ∷ []))),
    )

    -- The shutdown is only acknowledged.
    unfoldable pub execute_shutdown :
        CommandContext → Moment → Json → M → M × Exec (CommandResult Json)
    execute_shutdown context clocks params m =
        (m, returns (ok (object_of (("status", of_string "shutdown_initiated") ∷ []))))

    -- The list is fixed: it does not name the other commands of the registry.
    unfoldable pub execute_commands_list :
        CommandContext → Moment → Json → M → M × Exec (CommandResult Json)
    execute_commands_list context clocks params m = (
      m,
      returns (
          ok (
            object_of (
              (
                "commands",
                array (
                    object_of (
                      ("name", of_string "ping")
                      ∷ ("description", of_string "Simple ping command")
                      ∷ [])
                    ∷ object_of (
                        ("name", of_string "shutdown")
                        ∷ ("description", of_string "Gracefully shutdown the daemon")
                        ∷ [])
                    ∷ object_of (
                        ("name", of_string "commands.list")
                        ∷ ("description", of_string "List all available commands")
                        ∷ [])
                    ∷ []),
              )
              ∷ []))),
    )

  -- The result, by the id that `add_task` gave.
  abbrev pub add_result : String → String → CommandResult Json
  add_result task_type task_id =
      if str_eq task_id ""
      then err object (neg 32000) "Failed to add task: unknown type or invalid params"
      else ok (
          object_of (
            ("id", of_string task_id)
            ∷ ("type", of_string task_type)
            ∷ ("status", of_string "started")
            ∷ []))

  abbrev pub task_object : TaskInfo → Json
  task_object task = object_of (
      ("id", of_string task.id)
      ∷ ("type", of_string task.type)
      ∷ ("state", of_string (state_name task.state))
      ∷ [])

  abbrev pub tasks_result : List TaskInfo → CommandResult Json
  tasks_result tasks = ok (
      object_of (
        ("tasks", array (map task_object tasks))
        ∷ ("count", of_int (to_int32 (pos (length tasks))))
        ∷ []))

  module _ {T : Type 0} (ops : ITask T) where
    unfoldable pub execute_status :
        CommandContext
        → Moment
        → Json
        → TaskManager T Json
        → TaskManager T Json × Exec (CommandResult Json)
    execute_status context clocks params m =
        let result =
          object_of (("version", of_string "0.1.0") ∷ ("status", of_string "running") ∷ []) in
        if context.has_task_manager
        then (
          m,
          do
            count ← active_count ops m
            returns (ok (put result "active_tasks" (of_int (pos count)))),
        )
        else (m, returns (ok (put result "active_tasks" (of_int (pos 0)))))

    unfoldable pub execute_tasks_add :
        CommandContext
        → Moment
        → Json
        → TaskManager T Json
        → TaskManager T Json × Exec (CommandResult Json)
    execute_tasks_add context clocks params m = elim (member params "type") [
      | none ↦ (m, returns (err object (neg 32602) "Missing required parameter: type"))
      | some value ↦
          after (m, lift (as_string value))
            λ task_type m₁.
              after (add_task task_type params clocks.ticks m₁)
                λ task_id m₂. (m₂, returns (add_result task_type task_id))
    ]

    unfoldable pub execute_tasks_list :
        CommandContext
        → Moment
        → Json
        → TaskManager T Json
        → TaskManager T Json × Exec (CommandResult Json)
    execute_tasks_list context clocks params m =
        (m, do tasks ← list_tasks ops m; returns (tasks_result tasks))

    unfoldable pub execute_tasks_stop :
        CommandContext
        → Moment
        → Json
        → TaskManager T Json
        → TaskManager T Json × Exec (CommandResult Json)
    execute_tasks_stop context clocks params m = elim (member params "id") [
      | none ↦ (m, returns (err object (neg 32602) "Missing required parameter: id"))
      | some value ↦
          after (m, lift (as_string value))
            λ task_id m₁. after (stop_task ops task_id m₁) λ found m₂.
              if found
              then (
                m₂,
                returns (
                    ok (
                      object_of
                        (("id", of_string task_id) ∷ ("status", of_string "stopping") ∷ []))),
              )
              else (
                m₂,
                returns
                    (err object (neg 32001) (append "Task not found or already stopped: " task_id)),
              )
    ]
