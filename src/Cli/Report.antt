-- ===== src/Cli/Report.antt =====
-- `formatAndPrintResponse` of src/cli/main.cpp: what it prints, and the exit status.
use test_ai_agent.Prelude.{
  ℕ, String, Bool, not, ◌&&◌, List, [], ◌∷◌, ◌++◌, Option, none, some, str_eq, if◌then◌else◌,
}
use test_ai_agent.Prelude.Int.{ℤ, pos, neg}
use test_ai_agent.Prelude.Outcome.{Outcome}
use test_ai_agent.Prelude.Exec.{Exec, returns, throws}
use test_ai_agent.Json.{JsonLib}
use test_ai_agent.Cli.Client.{CommandResponse}

-- What an `operator<<` writes: a text, a number, a JSON value, `dump(2)` of one, `std::endl`, or the
-- text of `printUsage`.
pub data Piece (Json : Type 0) : Type 0 where
  text : String → Piece Json
  number : ℤ → Piece Json
  value : Json → Piece Json
  pretty : Json → Piece Json
  newline : Piece Json
  usage : Piece Json

-- What is printed on the two streams, and the exit status, or the exception that ends the program.
pub record Report (Json : Type 0) : Type 0 where
  pub out : List (Piece Json)
  pub error : List (Piece Json)
  pub status : Exec ℕ

abbrev pub starts_with : String → List String → Bool
starts_with s [] = Bool.false
starts_with s (arg ∷ args) = str_eq arg s

module _ {Json : Type 0} where
  abbrev pub prints : List (Piece Json) → ℕ → Report Json
  prints pieces status = record { out = pieces; error = []; status = returns status }

  abbrev pub complains : List (Piece Json) → ℕ → Report Json
  complains pieces status = record { out = []; error = pieces; status = returns status }

  -- What is printed before.
  abbrev pub then_report : List (Piece Json) → Report Json → Report Json
  then_report pieces r = record r { out = pieces ++ r.out }

  -- A value that a call gives, or the exception of the call, which nothing catches.
  abbrev pub reading {ℓ} : {A : Type ℓ} → Outcome A → (A → Report Json) → Report Json
  reading (Outcome.returns a) next = next a
  reading (Outcome.throws what) next = record { out = []; error = []; status = throws what }

module _ {Json : Type 0} (J : JsonLib Json) where
  open J use {
    null, of_string, of_int, of_bool, size, elements, member, put, value_int, value_string,
  }

  -- `output["error_code"] = *response.error_code`, if there is one.
  abbrev put_error_code : Option ℤ → Json → Json
  put_error_code none j = j
  put_error_code (some error_code) j = put j "error_code" (of_int error_code)

  unfoldable pub raw_output : CommandResponse Json → Json
  raw_output response =
      let output = put null "success" (of_bool response.success) in
      let output = put_error_code response.error_code output in
      let output = put output "message" (of_string response.message) in
      let output = put output "data" response.payload in
      put output "response_time_ms" (of_int (pos response.response_time))

  abbrev code_pieces : Option ℤ → List (Piece Json)
  code_pieces none = []
  code_pieces (some error_code) = text " (code: " ∷ number error_code ∷ text ")" ∷ []

  unfoldable pub error_report : CommandResponse Json → Report Json
  error_report response =
      complains
        (text "Error: " ∷ text response.message ∷ (code_pieces response.error_code ++ newline ∷ []))
        1

  -- A line of `status`, if the data has the field.
  abbrev field_line : String → Option Json → (Json → List (Piece Json)) → List (Piece Json)
  field_line label none shown = []
  field_line label (some j) shown = text label ∷ (shown j ++ newline ∷ [])

  unfoldable pub status_report : Json → Report Json
  status_report payload =
      prints
        (text "Daemon Status:"
          ∷ newline
          ∷ (field_line "  Version: " (member payload "version") (λ j. value j ∷ [])
              ++ (field_line "  Uptime: " (member payload "uptime_seconds")
                    (λ j. value j ∷ text "s" ∷ [])
                  ++ (field_line "  Active clients: " (member payload "active_clients")
                        (λ j. value j ∷ [])
                      ++ field_line "  Tasks: " (member payload "tasks")
                          (λ j. number (pos (size j)) ∷ [])))))
        0

  -- The loop over the commands.
  unfoldable pub command_lines : List Json → Report Json
  command_lines [] = prints [] 0
  command_lines (cmd ∷ more) =
      let rest = command_lines more in
      reading (value_string cmd "name" "unknown") λ name.
        reading (value_string cmd "description" "") λ desc.
          then_report
            (text "  "
              ∷ text name
              ∷ ((if str_eq desc "" then [] else text " - " ∷ text desc ∷ []) ++ newline ∷ []))
            rest

  -- The loop over the tasks: a line is printed as far as its fields are read.
  unfoldable pub task_lines : List Json → Report Json
  task_lines [] = prints [] 0
  task_lines (task ∷ more) =
      let rest = task_lines more in
      then_report (text "  ID: " ∷ []) (
        reading (value_int task "id" (neg 1)) λ id. then_report (number id ∷ text ", Type: " ∷ []) (
          reading (value_string task "type" "unknown") λ type.
            then_report (text type ∷ text ", State: " ∷ []) (
              reading (value_string task "state" "unknown")
                λ state. then_report (text state ∷ newline ∷ []) rest)))

  -- `is_array()`, and the loop if it holds.
  abbrev pub if_array : Option (List Json) → (List Json → Report Json) → Report Json
  if_array none lines = prints [] 0
  if_array (some js) lines = lines js

  -- The branch of `tasks`, by its first argument.
  unfoldable pub tasks_report : String → Json → Report Json
  unfolding task_lines
  tasks_report subcommand payload =
      if str_eq subcommand "list"
      then then_report (text "Background tasks:" ∷ newline ∷ [])
          (if_array (elements payload) task_lines)
      else if str_eq subcommand "add"
      then then_report (text "Task added. ID: " ∷ [])
          (reading (value_int payload "task_id" (neg 1)) λ id. prints (number id ∷ newline ∷ []) 0)
      else if str_eq subcommand "stop"
      then prints (text "Task stopped." ∷ newline ∷ []) 0
      else prints [] 0

  abbrev pub tasks_or : List String → Json → Report Json → Report Json
  tasks_or [] payload other = other
  tasks_or (subcommand ∷ args) payload other = tasks_report subcommand payload

  -- A success, by the command.
  unfoldable pub success_report : CommandResponse Json → String → List String → Report Json
  unfolding tasks_report command_lines status_report
  success_report response command args =
      let payload = response.payload in
      let other = prints (pretty payload ∷ newline ∷ []) 0 in
      if str_eq command "ping"
      then prints
          (text "Pong! Response time: "
            ∷ number (pos response.response_time)
            ∷ text "ms"
            ∷ newline
            ∷ [])
          0
      else if str_eq command "status"
      then status_report payload
      else if str_eq command "commands" && starts_with "list" args
      then then_report (text "Available commands:" ∷ newline ∷ [])
          (if_array (elements payload) command_lines)
      else if str_eq command "tasks"
      then tasks_or args payload other
      else if str_eq command "shutdown"
      then prints (text "Shutdown request sent." ∷ newline ∷ []) 0
      else other

  unfoldable pub format_and_print_response :
      CommandResponse Json → String → List String → Bool → Report Json
  unfolding raw_output error_report success_report
  format_and_print_response response command args raw_json =
      if raw_json
      then prints (pretty (raw_output response) ∷ newline ∷ []) (if response.success then 0 else 1)
      else if not response.success
      then error_report response
      else success_report response command args
