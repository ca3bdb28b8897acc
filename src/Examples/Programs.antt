-- ===== src/Examples/Programs.antt =====
-- Examples for src/cli/main.cpp with the commands of the daemon, and for its settings.
use test_ai_agent.Prelude.{inr, false, List, [], ◌∷◌, ◌++◌, some, ◌≡◌, refl, arith, All, text_key}
use test_ai_agent.Prelude.Decimal.{to_string, emit}
use test_ai_agent.Prelude.Int.{pos, neg}
use test_ai_agent.Prelude.Outcome
use test_ai_agent.Prelude.Exec.{returns, crashes}
use test_ai_agent.Prelude.Maps.{lookup}
use test_ai_agent.Json.Sample.{Value, nul, text, obj, end, field}
use test_ai_agent.Commands.Registry.{get_command}
use test_ai_agent.Commands.Handler.{command_handler, respond, answer, error_answer}
use test_ai_agent.Commands.Builtin.{object_of, execute_commands_list, execute_tasks_add}
use test_ai_agent.Tasks.Registry.{create_task}
use test_ai_agent.Tasks.Manager.Defs.{add_task}
use test_ai_agent.Cli.Strtol.{stoi}
use test_ai_agent.Cli.Options.{CliOptions}
use test_ai_agent.Cli.TaskArgs.{split_equals, parse_task_args}
use test_ai_agent.Cli.Settings.{
  Setting, interval, assign, word, IsFine, arguments, parse_task_args-arguments, SetsAll,
  no_settings, setting, passes_over, sets_interval, sets_text, sets_number, parse_task_args_crashes,
}
use test_ai_agent.Cli.Report
use test_ai_agent.Cli.Report.{Report, number, newline, prints}
use test_ai_agent.Cli.Main.{ask, plan}
use test_ai_agent.Cli.Talk.{talk}
use test_ai_agent.Cli.Reports.{
  asking, asked, commands, stop_reports_stopped, lists_report_nothing, add_reports_no_id,
}
use test_ai_agent.Examples.Data.{lib, lib_laws}
use test_ai_agent.Examples.Tasks.{ops, manager, clocks, startup, startup-IsMain}

abbrev options : CliOptions Value
options = record {
  socket_path = "/tmp/demo_daemon.sock";
  timeout_ms = pos 5000;
  raw_json = false;
  help = false;
  command = "";
  args = [];
  params = nul;
}

three : stoi "3" ≡ Outcome.returns (pos 3)
unfolding stoi
three = refl

stop_reports_stopped_example :
    talk lib startup.0 clocks
      (asking lib options "tasks" ("stop" ∷ "3" ∷ []))
      1
      7
      manager
      (plan lib "" (asking lib options "tasks" ("stop" ∷ "3" ∷ [])))
    ≡ some (manager, prints (Report.text "Task stopped." ∷ newline ∷ []) 0)
stop_reports_stopped_example =
    stop_reports_stopped lib lib_laws ops startup.0 clocks options 1 7 "" "3" [] (pos 3) manager
      startup-IsMain (omega arith) three

-- What the daemon answers to `commands.list`, and to `tasks.add` without a type.
abbrev listed : Value
listed = object_of lib (
    (
      "commands",
      lib.array (
          object_of lib (("name", text "ping") ∷ ("description", text "Simple ping command") ∷ [])
          ∷ object_of lib (
              ("name", text "shutdown")
              ∷ ("description", text "Gracefully shutdown the daemon")
              ∷ [])
          ∷ object_of lib (
              ("name", text "commands.list")
              ∷ ("description", text "List all available commands")
              ∷ [])
          ∷ []),
    )
    ∷ [])

listing :
    command_handler lib startup.0 clocks (asked 1 "commands.list" nul) manager
    ≡ (manager, returns (record { id = some (pos 1); result = listed }))
unfolding startup command_handler get_command lookup respond answer execute_commands_list
listing = refl

lists_report_nothing_example :
    talk lib startup.0 clocks
      (asking lib options "commands" ("list" ∷ []))
      1
      7
      manager
      (plan lib "" (asking lib options "commands" ("list" ∷ [])))
    ≡ some (manager, prints (Report.text "Available commands:" ∷ newline ∷ []) 0)
lists_report_nothing_example =
    lists_report_nothing lib lib_laws ops startup.0 clocks options 1 7 "" "commands" "commands.list"
      "Available commands:" [] manager manager (record { id = some (pos 1); result = listed })
      commands startup-IsMain (omega arith) listing

abbrev sleep_params : Value
sleep_params = obj (field "type" (text "sleep") end)

planned :
    plan lib "" (asking lib options "tasks" ("add" ∷ "sleep" ∷ []))
    ≡ returns (ask "tasks.add" sleep_params)
unfolding plan parse_task_args
planned = refl

-- No task of that type can be made.
adding : command_handler lib startup.0 clocks (asked 1 "tasks.add" sleep_params) manager ≡ (
  record manager { next_task_id = 1 },
  returns (
      error_answer lib
        (asked 1 "tasks.add" sleep_params)
        (neg 32000)
        "Failed to add task: unknown type or invalid params"),
)
unfolding startup command_handler get_command lookup respond answer error_answer execute_tasks_add
    add_task create_task
adding = refl

add_reports_no_id_example :
    talk lib startup.0 clocks
      (asking lib options "tasks" ("add" ∷ "sleep" ∷ []))
      1
      7
      manager
      (plan lib "" (asking lib options "tasks" ("add" ∷ "sleep" ∷ [])))
    ≡ some (
      record manager { next_task_id = 1 },
      prints (Report.text "Task added. ID: " ∷ number (neg 1) ∷ newline ∷ []) 0,
    )
add_reports_no_id_example =
    add_reports_no_id lib lib_laws ops startup.0 clocks options 1 7 "" ("sleep" ∷ []) sleep_params
      manager (record manager { next_task_id = 1 })
      (error_answer lib (asked 1 "tasks.add" sleep_params) (neg 32000)
        "Failed to add task: unknown type or invalid params")
      startup-IsMain (omega arith) planned adding

-- `heartbeat --interval 5 name=a wait=30s`
abbrev settings : List Setting
settings = word "heartbeat" ∷ interval 5 ∷ assign "name" "a" ∷ assign "wait" "30s" ∷ []

settings-IsFine : All IsFine settings
unfolding split_equals
settings-IsFine = ((refl, refl, refl, refl), (omega arith, (refl, (refl, tt))))

abbrev settings_object : Value
settings_object =
    lib.put
      (lib.put (lib.put lib.object "interval" (lib.of_int (pos 5))) "name" (lib.of_string "a"))
      "wait" (lib.of_int (pos 30))

settings-SetsAll : SetsAll lib settings lib.object settings_object
unfolding split_equals to_string emit
settings-SetsAll = setting (passes_over (refl, refl, refl, refl)) (
    setting (sets_interval (omega arith)) (
      setting (sets_text refl (omega arith, λ e. omega arith, λ e. omega arith, inr (omega arith)))
        (setting (sets_number 30 "s" refl refl (omega arith) refl) no_settings)))

parse_task_args-arguments_example :
    parse_task_args lib (arguments settings) ≡ returns settings_object
parse_task_args-arguments_example =
    parse_task_args-arguments lib settings settings_object settings-SetsAll

parse_task_args_crashes_example :
    parse_task_args lib (arguments settings ++ "--type" ∷ []) ≡ crashes
parse_task_args_crashes_example = parse_task_args_crashes lib settings settings-IsFine
