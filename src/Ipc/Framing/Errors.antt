-- ===== src/Ipc/Framing/Errors.antt =====
-- The error messages that the parser makes.
use Prim.Native.String.{◌++◌ as append}
use test_ai_agent.Prelude.{String, none, some, Option}
use test_ai_agent.Prelude.Int.{ℤ}
use test_ai_agent.Ipc.Protocol.Code.{
  ProtocolErrorCode, parse_error, invalid_request, method_not_found, invalid_params, internal_error,
}
use test_ai_agent.Ipc.Protocol.Message.{JsonMessage}

module _ {Json : Type 0} where
  abbrev error_message : Option ℤ → ProtocolErrorCode → String → JsonMessage Json
  error_message id code message = record {
    id = id;
    method = none;
    params = none;
    result = none;
    error = some (record { code = code; message = message; payload = none });
  }

  abbrev pub make_parse_error : JsonMessage Json
  make_parse_error = error_message none parse_error "Invalid JSON payload"

  abbrev pub make_invalid_request : ℤ → JsonMessage Json
  make_invalid_request id =
      error_message (some id) invalid_request "The JSON sent is not a valid Request object"

  abbrev pub make_method_not_found : ℤ → String → JsonMessage Json
  make_method_not_found id method =
      error_message (some id) method_not_found (append "Method not found: " method)

  abbrev pub make_invalid_params : ℤ → String → JsonMessage Json
  make_invalid_params id message = error_message (some id) invalid_params message

  abbrev pub make_internal_error : ℤ → String → JsonMessage Json
  make_internal_error id message = error_message (some id) internal_error message
