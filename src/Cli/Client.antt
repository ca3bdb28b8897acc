-- ===== src/Cli/Client.antt =====
-- `DemoDaemonClient::sendRequest` of src/cli/client.cpp.
use Prim.Native.String.{◌++◌ as append}
use test_ai_agent.Prelude.{
  ℕ, ◌+◌, ◌%◌, ◌^◌, String, Bool, true, false, List, [], ◌∷◌, ◌++◌, Option, none, some,
}
use test_ai_agent.Prelude.Int.{ℤ, pos, neg}
use test_ai_agent.Prelude.Outcome.{Outcome, returns, throws, ◌>>=◌, catch}
use test_ai_agent.Json.{JsonLib, newline}
use test_ai_agent.Ipc.Framing.Scan.{Bytes}
use test_ai_agent.Cli.Socket.{Client, Sent, send_loop, Received, recv_loop}

pub record CommandResponse (Json : Type 0) : Type 0 where
  pub success : Bool
  pub error_code : Option ℤ
  pub message : String
  pub payload : Json  -- `data`
  pub response_time : ℕ

module _ {Json : Type 0} (J : JsonLib Json) where
  open J use {
    object, of_string, of_int, member, put, value_int, value_string, value_json, parse, dump,
  }

  -- The request, with the number that `++request_id` gave.
  unfoldable pub build_request : ℕ → String → Json → Json
  build_request id method params =
      put (put (put object "id" (of_int (pos id))) "method" (of_string method)) "params" params

  -- What the fields of a response are read as. `value` throws at an error that is no object.
  unfoldable pub read_response : ℕ → Json → Outcome (CommandResponse Json)
  read_response duration response = elim (member response "error") [
    | some error ↦ do
      error_code ← value_int error "code" (neg 1)
      message ← value_string error "message" "Unknown error"
      payload ← value_json error "data" object
      returns (record {
        success = false;
        error_code = some error_code;
        message = message;
        payload = payload;
        response_time = duration;
      })
    | none ↦ elim (member response "result") [
      | some result ↦ returns (record {
        success = true;
        error_code = none;
        message = "OK";
        payload = result;
        response_time = duration;
      })
      | none ↦ returns (record {
        success = false;
        error_code = some (neg 32600);
        message = "Invalid response format";
        payload = object;
        response_time = duration;
      })
    ]
  ]

  -- `sendMessage`: `none` while a call has yet to return.
  unfoldable pub send_message : List Sent → List Received → Json → Option (Outcome Bytes)
  send_message sending receiving message =
      elim (send_loop sending (dump message ++ newline ∷ []) []).0 [
        | none ↦ none
        | some (throws what) ↦ some (throws what)
        | some (returns _) ↦ recv_loop receiving []
      ]

  -- The `try` block, from the text of the response on; `what` is the text of a parse error.
  unfoldable pub finish_request : String → ℕ → Outcome Bytes → Outcome (CommandResponse Json)
  finish_request what duration received = do
    response_str ← received
    elim (parse response_str) [
      | none ↦ throws what
      | some response ↦ read_response duration response
    ]

  unfoldable pub send_request :
      List Sent
      → List Received
      → String
      → ℕ
      → String
      → Json
      → Client
      → Client × Option (CommandResponse Json)
  send_request sending receiving what duration method params c =
      let id = (c.request_id + 1) % 2 ^ 64 in
      (
        record c { request_id = id },
        elim (send_message sending receiving (build_request id method params)) [
          | none ↦ none
          | some received ↦ some (
              catch (finish_request what duration received) (λ e. record {
                success = false;
                error_code = some (neg 1);
                message = append "Communication error: " e;
                payload = object;
                response_time = duration;
              }))
        ],
      )
