-- ===== src/Cli/Reports.antt =====
-- What the client of src/cli/main.cpp reports on the answers of the daemon's commands.
use test_ai_agent.Prelude.{
  ℕ, ◌<◌, ◌^◌, String, true, false, List, [], ◌∷◌, none, some, ◌≡◌, refl, sym, ap, subst, ◌∙◌,
  text_key,
}
use test_ai_agent.Prelude.Int.{ℤ, pos, neg}
use test_ai_agent.Prelude.Outcome
use test_ai_agent.Prelude.Exec.{Exec, returns, returns-injective}
use test_ai_agent.Prelude.Maps.{lookup, insert}
use test_ai_agent.Json.{JsonLib, JsonLaws}
use test_ai_agent.Ipc.Protocol.Request.{RequestMessage}
use test_ai_agent.Ipc.Protocol.Response.{ResponseMessage}
use test_ai_agent.Tasks.State.{ITask}
use test_ai_agent.Tasks.Manager.Defs.{TaskManager}
use test_ai_agent.Commands.Registry.{
  CommandContext, Moment, Command, CommandRegistry, register_command, get_command,
}
use test_ai_agent.Commands.Builtin.{execute_tasks_stop}
use test_ai_agent.Commands.Main.{commands_list_command, tasks_list_command, tasks_add_command}
use test_ai_agent.Commands.Handler.{
  command_handler, command_handler_found, respond, answer, error_answer,
}
use test_ai_agent.Commands.Crash.{IsMain, main_commands}
use test_ai_agent.Cli.Strtol.{stoi}
use test_ai_agent.Cli.Options.{CliOptions}
use test_ai_agent.Cli.Report.{text, number, newline, prints, format_and_print_response}
use test_ai_agent.Cli.Main.{ask, plan}
use test_ai_agent.Cli.Talk.{talk, talk_answered}
use test_ai_agent.Cli.Plain.{
  IsPlain, PlainResult, PlainResponse, respond-PlainResponse, tasks_add-PlainResult,
  tasks_list-PlainResult, commands_list-PlainResult,
}

-- The options of a run for a command with its arguments, without `--raw-json`.
abbrev pub asking :
    {Json : Type 0} → JsonLib Json → CliOptions Json → String → List String → CliOptions Json
asking J opts command args = record opts {
  command = command;
  args = args;
  raw_json = false;
  params = J.null;
}

-- The request that the daemon reads.
abbrev pub asked : {Json : Type 0} → ℕ → String → Json → RequestMessage Json
asked id method params = record { id = some (pos id); method = method; params = params }

module _ {Json T : Type 0} (J : JsonLib Json) (L : JsonLaws J) (ops : ITask T)
    (registry : CommandRegistry Json (TaskManager T Json)) (clocks : Moment)
    (opts : CliOptions Json) (id duration : ℕ) where
  open J use {null, put, of_int, is_object, elements, member}

  -- The context that the command handler makes.
  abbrev context : CommandContext
  context = record { client_id = ""; has_task_manager = true }

  -- The answer of a registered command has the shape of its result.
  answered-IsPlain :
      (name : String) (cmd : Command Json (TaskManager T Json)) (params : Json)
      (m m' : TaskManager T Json) (response : ResponseMessage Json)
      → get_command name registry ≡ some cmd
      → PlainResult J L (cmd.execute context clocks params m).1
      → command_handler J registry clocks (asked id name params) m ≡ (m', returns response)
      → IsPlain J response.result
  answered-IsPlain name cmd params m m' response found plain handled =
      let request = asked id name params in
      subst (λ (x : TaskManager T Json × Exec (ResponseMessage Json)). PlainResponse J L x.1)
        (sym (command_handler_found J registry clocks request m cmd found) ∙ handled)
        (respond-PlainResponse J L request (cmd.execute context clocks params m) plain)

  commands_list_found :
      IsMain J ops registry → get_command "commands.list" registry ≡ some (commands_list_command J)
  unfolding register_command get_command insert lookup
  commands_list_found main = sym (ap (get_command "commands.list") (returns-injective main.filled))

  plan_list :
      (what : String) (args : List String)
      → plan J what (asking J opts "tasks" ("list" ∷ args)) ≡ returns (ask "tasks.list" null)
  unfolding plan
  plan_list what [] = refl
  plan_list what (arg ∷ args) = refl

  -- Where the client sends `tasks stop` with an argument that `std::stoi` reads, with a request
  -- number below 2^63, to the registry that `main` fills, and the answer reaches it, the daemon
  -- stops nothing and changes no task, and the client prints "Task stopped." and ends with 0.
  pub stop_reports_stopped :
      (what arg : String) (more : List String) (n : ℤ) (m : TaskManager T Json)
      → IsMain J ops registry
      → id < 2 ^ 63
      → stoi arg ≡ Outcome.returns n
      → talk J registry clocks
          (asking J opts "tasks" ("stop" ∷ arg ∷ more))
          id
          duration
          m
          (plan J what (asking J opts "tasks" ("stop" ∷ arg ∷ more)))
        ≡ some (m, prints (text "Task stopped." ∷ newline ∷ []) 0)
  unfolding plan execute_tasks_stop respond answer error_answer format_and_print_response
  stop_reports_stopped what arg more n m main small read =
      let params = put null "task_id" (of_int n) in
      let (_, _, _, stop) = main_commands J ops registry main in
      let absent : member params "id" ≡ none =
        simp (L.put_null, L.member_put, L.object_is_object, L.member_object) in
      let request = asked id "tasks.stop" params in
      talk_answered J L registry clocks (asking J opts "tasks" ("stop" ∷ arg ∷ more)) id duration m
        m "tasks.stop" params (plan J what (asking J opts "tasks" ("stop" ∷ arg ∷ more)))
        (error_answer J request (neg 32602) "Missing required parameter: id") small
        (rw (plan, read) refl)
        (command_handler_found J registry clocks request m _ stop
          ∙ rw (execute_tasks_stop, absent) refl)

  -- The two commands that list: the method, and the first line of the report.
  pub data Listing (args : List String) : String → String → String → Type 0 where
    commands : Listing args "commands" "commands.list" "Available commands:"
    tasks : Listing args "tasks" "tasks.list" "Background tasks:"

  -- If the registry that `main` fills answers `commands list` or `tasks list` of the client, whose
  -- request number is below 2^63, and the answer reaches it, the client prints the heading only,
  -- and ends with 0, whatever the answer lists.
  pub lists_report_nothing :
      (what command method heading : String) (args : List String) (m m' : TaskManager T Json)
      (response : ResponseMessage Json)
      → Listing args command method heading
      → IsMain J ops registry
      → id < 2 ^ 63
      → command_handler J registry clocks (asked id method null) m ≡ (m', returns response)
      → talk J registry clocks
          (asking J opts command ("list" ∷ args))
          id
          duration
          m
          (plan J what (asking J opts command ("list" ∷ args)))
        ≡ some (m', prints (text heading ∷ newline ∷ []) 0)
  unfolding plan format_and_print_response
  lists_report_nothing what _ _ _ args m m' response commands main small handled =
      let run = asking J opts "commands" ("list" ∷ args) in
      let plain : IsPlain J response.result =
        answered-IsPlain "commands.list" (commands_list_command J) null m m' response
          (commands_list_found main) (commands_list-PlainResult J L ops context clocks null m)
          handled in
      let no_array = L.object_is_no_array response.result plain.plain in
      talk_answered J L registry clocks run id duration m m' "commands.list" null (plan J what run)
        response small refl handled
      ∙ rw no_array refl
  lists_report_nothing what _ _ _ args m m' response tasks main small handled =
      let run = asking J opts "tasks" ("list" ∷ args) in
      let plain : IsPlain J response.result =
        answered-IsPlain "tasks.list" (tasks_list_command J ops) null m m' response
          (main_commands J ops registry main).1
          (tasks_list-PlainResult J L ops context clocks null m) handled in
      let no_array = L.object_is_no_array response.result plain.plain in
      talk_answered J L registry clocks run id duration m m' "tasks.list" null (plan J what run)
        response small (plan_list what args) handled
      ∙ rw no_array refl

  -- If the registry that `main` fills answers a `tasks add` of the client, whose request number is
  -- below 2^63, and the answer reaches it, the client prints that the task was added with the id
  -- -1, whatever id the task got and also if it got none, and ends with 0.
  pub add_reports_no_id :
      (what : String) (args : List String) (params : Json) (m m' : TaskManager T Json)
      (response : ResponseMessage Json)
      → IsMain J ops registry
      → id < 2 ^ 63
      → plan J what (asking J opts "tasks" ("add" ∷ args)) ≡ returns (ask "tasks.add" params)
      → command_handler J registry clocks (asked id "tasks.add" params) m ≡ (m', returns response)
      → talk J registry clocks
          (asking J opts "tasks" ("add" ∷ args))
          id
          duration
          m
          (plan J what (asking J opts "tasks" ("add" ∷ args)))
        ≡ some (m', prints (text "Task added. ID: " ∷ number (neg 1) ∷ newline ∷ []) 0)
  unfolding format_and_print_response
  add_reports_no_id what args params m m' response main small planned handled =
      let run = asking J opts "tasks" ("add" ∷ args) in
      let plain : IsPlain J response.result =
        answered-IsPlain "tasks.add" (tasks_add_command J ops) params m m' response
          (main_commands J ops registry main).2
          (tasks_add-PlainResult J L ops context clocks params m) handled in
      let missing =
        L.value_int_missing response.result "task_id" (neg 1) plain.plain plain.no_task_id in
      talk_answered J L registry clocks run id duration m m' "tasks.add" params (plan J what run)
        response small planned handled
      ∙ rw missing refl
