-- ===== src/Examples/Clients.antt =====
-- Examples for the client.
use test_ai_agent.Prelude.{true, List, [], ◌∷◌, ◌++◌, none, some, ◌≡◌, refl, arith}
use test_ai_agent.Prelude.Int.{pos, neg}
use test_ai_agent.Prelude.Outcome.{returns}
use test_ai_agent.Json.{newline}
use test_ai_agent.Json.Sample.{Value, num, text, obj, end}
use test_ai_agent.Ipc.Framing.Scan.{Bytes}
use test_ai_agent.Ipc.Protocol.Request.{RequestMessage}
use test_ai_agent.Ipc.Protocol.Message
use test_ai_agent.Ipc.Session.Write.{response_message}
use test_ai_agent.Tasks.Builtin.Factory.{Counters}
use test_ai_agent.Commands.Registry.{CommandResult, err}
use test_ai_agent.Commands.Builtin.{object_of}
use test_ai_agent.Commands.Handler.{answer}
use test_ai_agent.Cli.Socket.{
  sent, send_interrupted, send_loop, Received, received, recv_interrupted, recv_loop,
}
use test_ai_agent.Cli.Exchange.{
  Delivers, Gives, nothing, interrupted, piece, send_loop-Delivers, recv_loop-line,
}
use test_ai_agent.Cli.Client.{read_response}
use test_ai_agent.Cli.Errors.{failure_reads_as_success}
use test_ai_agent.Examples.Data.{lib, lib_laws}

abbrev line : Bytes
line = 123 ∷ 125 ∷ []

send_loop-Delivers_example :
    Delivers
      (send_loop (sent 1 ∷ send_interrupted ∷ sent 4 ∷ []) (line ++ newline ∷ []) [])
      (line ++ newline ∷ [])
send_loop-Delivers_example =
    send_loop-Delivers (sent 1 ∷ send_interrupted ∷ sent 4 ∷ []) (line ++ newline ∷ [])

abbrev pieces : List Received
pieces = received (123 ∷ []) ∷ recv_interrupted ∷ received (125 ∷ 10 ∷ []) ∷ []

pieces-Gives : Gives pieces (line ++ newline ∷ [])
pieces-Gives = piece 123 [] _ (125 ∷ 10 ∷ []) (interrupted _ _ (piece 125 (10 ∷ []) [] [] nothing))

recv_loop-line_example : recv_loop (pieces ++ received (65 ∷ []) ∷ []) [] ≡ some (returns line)
recv_loop-line_example =
    recv_loop-line pieces (received (65 ∷ []) ∷ []) line (omega arith) pieces-Gives

abbrev request : RequestMessage Value
request = record { id = some (pos 1); method = "tasks.stop"; params = obj end }

abbrev failure : CommandResult Value
failure = err (obj end) (neg 32602) "Missing required parameter: id"

failure_reads_as_success_example :
    read_response lib 3 (Message.to_json lib (response_message (answer lib request failure)))
    ≡ returns (record {
      success = true;
      error_code = none;
      message = "OK";
      payload =
          object_of lib
            (("code", num (neg 32602)) ∷ ("message", text "Missing required parameter: id") ∷ []);
      response_time = 3;
    })
failure_reads_as_success_example = failure_reads_as_success lib lib_laws request failure 3 refl

abbrev counters : Counters
counters = record { heartbeats = 0; sleeps = 4 }
