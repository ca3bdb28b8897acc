-- ===== src/Commands/Main.antt =====
-- The commands as include/demo_daemon/commands declares them, and their registration in
-- src/daemon/main.cpp.
use test_ai_agent.Prelude.{List, [], ◌∷◌, some}
use test_ai_agent.Prelude.Exec.{Exec, returns, ◌>>=◌}
use test_ai_agent.Json.{JsonLib}
use test_ai_agent.Tasks.State.{ITask}
use test_ai_agent.Tasks.Manager.Defs.{TaskManager}
use test_ai_agent.Commands.Registry.{Command, CommandRegistry, register_command}
use test_ai_agent.Commands.Builtin.{
  execute_ping, execute_shutdown, execute_commands_list, execute_status, execute_tasks_add,
  execute_tasks_list, execute_tasks_stop,
}

module _ {Json : Type 0} (J : JsonLib Json) where
  module _ {M : Type 0} where
    abbrev pub ping_command : Command Json M
    ping_command = record {
      name = "ping";
      description = "Simple ping command to check connectivity";
      execute = execute_ping J;
    }

    abbrev pub shutdown_command : Command Json M
    shutdown_command = record {
      name = "shutdown";
      description = "Gracefully shutdown the daemon";
      execute = execute_shutdown J;
    }

    abbrev pub commands_list_command : Command Json M
    commands_list_command = record {
      name = "commands.list";
      description = "List all available commands";
      execute = execute_commands_list J;
    }

  module _ {T : Type 0} (ops : ITask T) where
    abbrev pub status_command : Command Json (TaskManager T Json)
    status_command = record {
      name = "status";
      description = "Get daemon status information";
      execute = execute_status J ops;
    }

    abbrev pub tasks_list_command : Command Json (TaskManager T Json)
    tasks_list_command = record {
      name = "tasks.list";
      description = "List all tasks";
      execute = execute_tasks_list J ops;
    }

    abbrev pub tasks_add_command : Command Json (TaskManager T Json)
    tasks_add_command = record {
      name = "tasks.add";
      description = "Add a new task";
      execute = execute_tasks_add J ops;
    }

    abbrev pub tasks_stop_command : Command Json (TaskManager T Json)
    tasks_stop_command = record {
      name = "tasks.stop";
      description = "Stop a task";
      execute = execute_tasks_stop J ops;
    }

    -- The commands that `main` registers, in its order.
    abbrev pub builtin_commands : List (Command Json (TaskManager T Json))
    builtin_commands =
        ping_command ∷ status_command ∷ shutdown_command ∷ commands_list_command
        ∷ tasks_list_command ∷ tasks_add_command ∷ tasks_stop_command ∷ []

module _ {Json M : Type 0} where
  abbrev pub register_all :
      List (Command Json M) → CommandRegistry Json M → Exec (CommandRegistry Json M)
  register_all [] r = returns r
  register_all (cmd ∷ cmds) r = do r' ← register_command (some cmd) r; register_all cmds r'
