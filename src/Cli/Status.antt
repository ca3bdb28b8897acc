-- ===== src/Cli/Status.antt =====
-- The exit status of src/cli/main.cpp.
use test_ai_agent.Prelude.{
  ℕ, String, Bool, true, false, not, ◌||◌, ◌&&◌, List, [], ◌∷◌, Option, none, some, ◌≡◌, refl,
  str_eq, ◌⊎◌, inl, inr, Bool-cases, Option-cases, if◌then◌else◌,
}
use test_ai_agent.Prelude.Int.{neg}
use test_ai_agent.Prelude.Outcome.{Outcome}
use test_ai_agent.Prelude.Exec.{Exec, returns, throws, crashes}
use test_ai_agent.Json.{JsonLib}
use test_ai_agent.Cli.Socket.{Client, new_client, connect}
use test_ai_agent.Cli.Client.{CommandResponse, send_request}
use test_ai_agent.Cli.Options.{CliOptions}
use test_ai_agent.Cli.Report.{
  Piece, pretty, newline, Report, prints, complains, if_array, tasks_or, starts_with, reading,
  command_lines, task_lines, status_report, tasks_report, success_report, error_report,
  format_and_print_response,
}
use test_ai_agent.Cli.Main.{Calls, Plan, ask, refuse, plan, carry_out, main}

-- The program ends with the status, or with the exception of a reading.
abbrev pub Ends : ℕ → Exec ℕ → Type 0
Ends n status = (status ≡ returns n) ⊎ ((what : String) × (status ≡ throws what))

module _ {Json : Type 0} (J : JsonLib Json) where
  open J use {elements, value_int, value_string}

  reading-Ends :
      {A : Type 0} (o : Outcome A) (next : A → Report Json)
      → ((a : A) → Ends 0 (next a).status)
      → Ends 0 (reading o next).status
  reading-Ends (Outcome.returns a) next h = h a
  reading-Ends (Outcome.throws what) next h = inr (what, refl)

  command_lines-Ends : (js : List Json) → Ends 0 (command_lines J js).status
  unfolding command_lines
  command_lines-Ends [] = inl refl
  command_lines-Ends (cmd ∷ more) =
      reading-Ends (value_string cmd "name" "unknown") _
        λ name. reading-Ends (value_string cmd "description" "") _ λ desc. command_lines-Ends more

  task_lines-Ends : (js : List Json) → Ends 0 (task_lines J js).status
  unfolding task_lines
  task_lines-Ends [] = inl refl
  task_lines-Ends (task ∷ more) = reading-Ends (value_int task "id" (neg 1)) _ λ id.
      reading-Ends (value_string task "type" "unknown") _
        λ type. reading-Ends (value_string task "state" "unknown") _ λ state. task_lines-Ends more

  if-Ends :
      (b : Bool) (x y : Report Json)
      → Ends 0 x.status
      → Ends 0 y.status
      → Ends 0 (if b then x else y).status
  if-Ends true x y hx hy = hx
  if-Ends false x y hx hy = hy

  if_array-Ends :
      (o : Option (List Json)) (lines : List Json → Report Json)
      → ((js : List Json) → Ends 0 (lines js).status)
      → Ends 0 (if_array J o lines).status
  if_array-Ends none lines h = inl refl
  if_array-Ends (some js) lines h = h js

  tasks_report-Ends :
      (subcommand : String) (payload : Json) → Ends 0 (tasks_report J subcommand payload).status
  unfolding tasks_report
  tasks_report-Ends subcommand payload =
      if-Ends (str_eq subcommand "list") _ _
        (if_array-Ends (elements payload) (task_lines J) task_lines-Ends)
        (if-Ends (str_eq subcommand "add") _ _
          (reading-Ends (value_int payload "task_id" (neg 1)) _ λ id. inl refl)
          (if-Ends (str_eq subcommand "stop") _ _ (inl refl) (inl refl)))

  status_report-Ends : (payload : Json) → Ends 0 (status_report J payload).status
  unfolding status_report
  status_report-Ends payload = inl refl

  success_report-Ends :
      (response : CommandResponse Json) (command : String) (args : List String)
      → Ends 0 (success_report J response command args).status
  unfolding success_report
  success_report-Ends response command args = if-Ends (str_eq command "ping") _ _ (inl refl) (
      if-Ends (str_eq command "status") _ _ (status_report-Ends response.payload) (
        if-Ends (str_eq command "commands" && starts_with "list" args) _ _
          (if_array-Ends (elements response.payload) (command_lines J) command_lines-Ends)
          (if-Ends (str_eq command "tasks") _ _ (by_args args)
            (if-Ends (str_eq command "shutdown") _ _ (inl refl) (inl refl)))))
    where
      by_args :
          (more : List String)
          → Ends 0
              (tasks_or J more response.payload
                (prints (pretty response.payload ∷ newline ∷ []) 0)).status
      by_args [] = inl refl
      by_args (subcommand ∷ rest) = tasks_report-Ends subcommand response.payload

  -- Zero for a success, unless the answer has not the form that the report expects; one for a failure.
  pub format_and_print_response-Ends :
      (response : CommandResponse Json) (command : String) (args : List String) (raw_json : Bool)
      → (response.success ≡ true
          → Ends 0 (format_and_print_response J response command args raw_json).status)
        × (response.success ≡ false
            → (format_and_print_response J response command args raw_json).status ≡ returns 1)
  unfolding format_and_print_response error_report
  format_and_print_response-Ends response command args true =
      (λ good. rw good (inl refl), λ bad. rw bad refl)
  format_and_print_response-Ends response command args false =
      (λ good. rw good (success_report-Ends response command args), λ bad. rw bad refl)

  -- A request was answered with a success.
  abbrev pub Succeeds : Calls → Client → Exec (Plan Json) → Type 0
  Succeeds calls client p =
      (method : String) × (params : Json) × (response : CommandResponse Json) × (p
        ≡ returns (ask method params))
      × ((send_request J calls.sending calls.receiving calls.what calls.duration method params
            client).1
          ≡ some response)
      × (response.success ≡ true)

  carry_out-Succeeds :
      (calls : Calls) (opts : CliOptions Json) (client : Client) (p : Exec (Plan Json))
      (report : Report Json)
      → carry_out J calls opts client p ≡ some report
      → report.status ≡ returns 0
      → Succeeds calls client p
  unfolding carry_out
  carry_out-Succeeds calls opts client (returns (ask method params)) report e zero =
      let sent =
        (send_request J calls.sending calls.receiving calls.what calls.duration method params
          client).1 in
      elim (Option-cases sent) [
        | inl waiting ↦ cc (e, waiting)
        | inr (response, came) ↦
            let (_, failure) =
              format_and_print_response-Ends response opts.command opts.args opts.raw_json in
            elim (Bool-cases response.success) [
              | inl good ↦ (method, params, response, refl, came, good)
              | inr bad ↦ cc (e, came, zero, failure bad)
            ]
      ]
  carry_out-Succeeds calls opts client (returns (refuse pieces)) report e zero = cc (e, zero)
  carry_out-Succeeds calls opts client (throws what) report e zero = cc (e, zero)
  carry_out-Succeeds calls opts client crashes report e zero = cc (e, zero)

  -- The tests of `main` before a request is sent.
  passed :
      (help empty connected : Bool) (pieces refusal : List (Piece Json))
      (rest : Option (Report Json)) (report : Report Json)
      → (if help || empty
          then some (prints pieces (if help then 0 else 1))
          else if not connected
          then some (complains refusal 1)
          else rest)
        ≡ some report
      → report.status ≡ returns 0
      → help ≡ false
      → (connected ≡ true) × (rest ≡ some report)
  passed true empty connected pieces refusal rest report e zero no_help = cc no_help
  passed false true connected pieces refusal rest report e zero no_help = cc (e, zero)
  passed false false true pieces refusal rest report e zero no_help = (refl, e)
  passed false false false pieces refusal rest report e zero no_help = cc (e, zero)

  -- If the client ends with the status 0 and was not asked for help, then it was connected, and
  -- sent a request whose answer it read as a success.
  pub main-Succeeds :
      (calls : Calls) (opts : CliOptions Json) (report : Report Json)
      → main J calls opts ≡ some report
      → report.status ≡ returns 0
      → opts.help ≡ false
      → let (client, connected) =
          connect calls.made calls.sets_receive calls.sets_send calls.accepted
            (new_client opts.socket_path opts.timeout_ms) in
        (connected ≡ true) × Succeeds calls client (plan J calls.what opts)
  unfolding main
  main-Succeeds calls opts report e zero no_help =
      let (client, connected) =
        connect calls.made calls.sets_receive calls.sets_send calls.accepted
          (new_client opts.socket_path opts.timeout_ms) in
      let p = plan J calls.what opts in
      let (reached, carried) =
        passed opts.help (str_eq opts.command "") connected _ _ (carry_out J calls opts client p)
          report e zero no_help in
      (reached, carry_out-Succeeds calls opts client p report carried zero)
