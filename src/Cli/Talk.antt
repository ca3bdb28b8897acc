-- ===== src/Cli/Talk.antt =====
-- The client of src/cli/main.cpp with the daemon: from the options to the request, through the command
-- of the daemon, to the report on its answer.
use test_ai_agent.Prelude.{ℕ, ◌<◌, ◌^◌, String, true, Option, none, some, ◌≡◌, refl, if◌then◌else◌}
use test_ai_agent.Prelude.Int.{pos}
use test_ai_agent.Prelude.Outcome
use test_ai_agent.Prelude.Exec.{Exec, returns}
use test_ai_agent.Json.{JsonLib, JsonLaws}
use test_ai_agent.Ipc.Protocol.Message
use test_ai_agent.Ipc.Protocol.Message.{JsonMessage, is_request}
use test_ai_agent.Ipc.Protocol.Response.{ResponseMessage}
use test_ai_agent.Ipc.Session.Defs.{request_of}
use test_ai_agent.Ipc.Session.Write.{response_message}
use test_ai_agent.Commands.Registry.{Moment, CommandRegistry}
use test_ai_agent.Commands.Handler.{command_handler}
use test_ai_agent.Cli.Client.{CommandResponse, build_request, read_response}
use test_ai_agent.Cli.Errors.{read_response-to_json, from_json-build_request}
use test_ai_agent.Cli.Options.{CliOptions}
use test_ai_agent.Cli.Report.{Report, format_and_print_response}
use test_ai_agent.Cli.Main.{Plan, ask}

-- The response that the client sees where the daemon answers.
abbrev pub seen : {Json : Type 0} → ℕ → Json → CommandResponse Json
seen duration result = record {
  success = true;
  error_code = none;
  message = "OK";
  payload = result;
  response_time = duration;
}

module _ {Json M : Type 0} (J : JsonLib Json) where
  -- What the client makes of a response.
  abbrev reported :
      CliOptions Json → M → Outcome.Outcome (CommandResponse Json) → Option (M × Report Json)
  reported opts m (Outcome.returns response) =
      some (m, format_and_print_response J response opts.command opts.args opts.raw_json)
  reported opts m (Outcome.throws what) = none

  abbrev replied : CliOptions Json → ℕ → M × Exec (ResponseMessage Json) → Option (M × Report Json)
  replied opts duration (m, returns response) =
      reported opts m (read_response J duration (Message.to_json J (response_message response)))
  replied opts duration (m, _) = none

  abbrev served :
      CommandRegistry Json M
      → Moment
      → CliOptions Json
      → ℕ
      → M
      → Outcome.Outcome (Option (JsonMessage Json))
      → Option (M × Report Json)
  served registry clocks opts duration m (Outcome.returns (some msg)) =
      if is_request msg
      then replied opts duration (command_handler J registry clocks (request_of J msg) m)
      else none
  served registry clocks opts duration m _ = none

  -- The client builds the request of its plan. The daemon reads it as a message, as the framing does,
  -- makes the request of it that the session hands to the command handler, and writes the message
  -- that the session makes of the response. The client reads this message and reports on it. `none`
  -- if one of these fails.
  unfoldable pub talk :
      CommandRegistry Json M
      → Moment
      → CliOptions Json
      → ℕ
      → ℕ
      → M
      → Exec (Plan Json)
      → Option (M × Report Json)
  talk registry clocks opts number duration m (returns (ask method params)) =
      served registry clocks opts duration m
        (Message.from_json J (build_request J number method params))
  talk registry clocks opts number duration m _ = none

  module _ (L : JsonLaws J) (registry : CommandRegistry Json M) (clocks : Moment)
      (opts : CliOptions Json) (number duration : ℕ) (m m' : M) (method : String)
      (params : Json) where
    pub talk_answered :
        (p : Exec (Plan Json)) (response : ResponseMessage Json)
        → number < 2 ^ 63
        → p ≡ returns (ask method params)
        → command_handler J registry clocks
            (record { id = some (pos number); method = method; params = params })
            m
          ≡ (m', returns response)
        → talk registry clocks opts number duration m p
          ≡ some (
            m',
            format_and_print_response J
                (seen duration response.result)
                opts.command
                opts.args
                opts.raw_json,
          )
    unfolding talk
    talk_answered p response small planned answered =
        rw
          (
            planned,
            from_json-build_request J L number method params small,
            answered,
            read_response-to_json J L response duration,
          )
          refl
