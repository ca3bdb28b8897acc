-- ===== src/Cli/Main.antt =====
-- `main` of src/cli/main.cpp: from the options to the request, and to the report on the answer.
use test_ai_agent.Prelude.{
  ℕ, String, Bool, not, ◌&&◌, ◌||◌, List, [], ◌∷◌, Option, none, some, str_eq, is_some, option_map,
  if◌then◌else◌,
}
use test_ai_agent.Prelude.Utf8.{utf8}
use test_ai_agent.Prelude.Int.{ℤ}
use test_ai_agent.Prelude.Exec.{Exec, returns, throws, crashes, ◌>>=◌}
use test_ai_agent.Json.{JsonLib}
use test_ai_agent.Commands.Builtin.{lift}
use test_ai_agent.Cli.Strtol.{stoi}
use test_ai_agent.Cli.Socket.{Client, new_client, connect, Sent, Received}
use test_ai_agent.Cli.Client.{CommandResponse, send_request}
use test_ai_agent.Cli.Options.{CliOptions}
use test_ai_agent.Cli.TaskArgs.{parse_task_args}
use test_ai_agent.Cli.Report.{
  Piece, text, newline, usage, Report, starts_with, prints, complains, format_and_print_response,
}

-- What `main` makes of the command: a method with its parameters, or a complaint.
pub data Plan (Json : Type 0) : Type 0 where
  ask : String → Json → Plan Json
  refuse : List (Piece Json) → Plan Json

-- What the calls of the kernel give while the client connects and exchanges a message; `what` is
-- the text of a parse error, and `duration` what the clock shows.
pub record Calls : Type 0 where
  pub made : ℤ
  pub sets_receive : Bool
  pub sets_send : Bool
  pub accepted : Bool
  pub sending : List Sent
  pub receiving : List Received
  pub what : String
  pub duration : ℕ

module _ {Json : Type 0} (J : JsonLib Json) where
  open J use {of_string, of_int, member, put, parse}

  -- `if (!params.contains("type")) params["type"] = args[1]`
  abbrev pub with_type : String → Json → Json
  with_type type params =
      if is_some (member params "type") then params else put params "type" (of_string type)

  abbrev unknown_subcommand : String → Plan Json
  unknown_subcommand subcommand =
      refuse (text "Unknown tasks subcommand: " ∷ text subcommand ∷ newline ∷ [])

  -- The branch of `tasks`.
  unfoldable pub plan_tasks : List String → Json → Exec (Plan Json)
  plan_tasks [] params =
      returns (refuse (text "Tasks subcommand required (list, add, stop)" ∷ newline ∷ []))
  plan_tasks (subcommand ∷ []) params =
      if str_eq subcommand "list"
      then returns (ask "tasks.list" params)
      else returns (unknown_subcommand subcommand)
  plan_tasks (subcommand ∷ arg ∷ args) params =
      if str_eq subcommand "list"
      then returns (ask "tasks.list" params)
      else if str_eq subcommand "add"
      then (parse_task_args J (arg ∷ args) >>= λ given.
          returns (ask "tasks.add" (with_type arg given)))
      else if str_eq subcommand "stop"
      then (lift (stoi arg) >>= λ id. returns (ask "tasks.stop" (put params "task_id" (of_int id))))
      else returns (unknown_subcommand subcommand)

  abbrev unknown_command : String → Plan Json
  unknown_command command = refuse (text "Unknown command: " ∷ text command ∷ newline ∷ usage ∷ [])

  -- The branch of `call`; `what` is the text of the exception of `parse`.
  unfoldable pub plan_call : String → String → List String → Exec (Plan Json)
  plan_call what command (method ∷ params ∷ args) = elim (parse (utf8 params)) [
    | none ↦ returns (refuse (text "Invalid JSON params: " ∷ text what ∷ newline ∷ []))
    | some j ↦ returns (ask method j)
  ]
  plan_call what command _ = returns (unknown_command command)

  unfoldable pub plan : String → CliOptions Json → Exec (Plan Json)
  unfolding plan_tasks plan_call
  plan what opts =
      let command = opts.command in
      if str_eq command "ping"
      then returns (ask "ping" opts.params)
      else if str_eq command "status"
      then returns (ask "status" opts.params)
      else if str_eq command "shutdown"
      then returns (ask "shutdown" opts.params)
      else if str_eq command "commands" && starts_with "list" opts.args
      then returns (ask "commands.list" opts.params)
      else if str_eq command "tasks"
      then plan_tasks opts.args opts.params
      else if str_eq command "call"
      then plan_call what command opts.args
      else returns (unknown_command command)

  -- The report on the answer; `none` while a call has yet to return.
  abbrev report_on : CliOptions Json → Option (CommandResponse Json) → Option (Report Json)
  report_on opts =
      option_map
        λ response. format_and_print_response J response opts.command opts.args opts.raw_json

  unfoldable pub carry_out :
      Calls → CliOptions Json → Client → Exec (Plan Json) → Option (Report Json)
  carry_out calls opts client (returns (ask method params)) =
      report_on opts
        (send_request J calls.sending calls.receiving calls.what calls.duration method params
          client).1
  carry_out calls opts client (returns (refuse pieces)) = some (complains pieces 1)
  carry_out calls opts client (throws what) =
      some (record { out = []; error = []; status = throws what })
  carry_out calls opts client crashes = some (record { out = []; error = []; status = crashes })

  unfoldable pub main : Calls → CliOptions Json → Option (Report Json)
  unfolding plan carry_out
  main calls opts =
      let (client, connected) =
        connect calls.made calls.sets_receive calls.sets_send calls.accepted
          (new_client opts.socket_path opts.timeout_ms) in
      if opts.help || str_eq opts.command ""
      then some (prints (usage ∷ []) (if opts.help then 0 else 1))
      else if not connected
      then some (
          complains
            (text "Failed to connect to daemon at: "
              ∷ text opts.socket_path
              ∷ newline
              ∷ text "Make sure the daemon is running and socket path is correct."
              ∷ newline
              ∷ [])
            1)
      else carry_out calls opts client (plan calls.what opts)
