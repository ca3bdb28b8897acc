-- ===== src/Ipc/Protocol/Code.antt =====
-- `ProtocolErrorCode`: an enumeration over `int32_t`, to which `from_json` casts any `int`.
use test_ai_agent.Prelude.{String, if◌then◌else◌}
use test_ai_agent.Prelude.Int.{ℤ, neg, int_beq}

abbrev pub ProtocolErrorCode : Type 0
ProtocolErrorCode = ℤ

abbrev pub parse_error : ProtocolErrorCode
parse_error = neg 32700

abbrev pub invalid_request : ProtocolErrorCode
invalid_request = neg 32600

abbrev pub method_not_found : ProtocolErrorCode
method_not_found = neg 32601

abbrev pub invalid_params : ProtocolErrorCode
invalid_params = neg 32602

abbrev pub internal_error : ProtocolErrorCode
internal_error = neg 32603

abbrev pub server_busy : ProtocolErrorCode
server_busy = neg 32000

abbrev pub timeout : ProtocolErrorCode
timeout = neg 32001

abbrev pub not_found : ProtocolErrorCode
not_found = neg 32002

abbrev pub unauthorized : ProtocolErrorCode
unauthorized = neg 32003

abbrev pub forbidden : ProtocolErrorCode
forbidden = neg 32004

-- `switch` over the code; the last branch is `default`.
unfoldable pub protocol_error_code_to_string : ProtocolErrorCode → String
protocol_error_code_to_string code =
    if int_beq code parse_error
    then "Parse error"
    else if int_beq code invalid_request
    then "Invalid Request"
    else if int_beq code method_not_found
    then "Method not found"
    else if int_beq code invalid_params
    then "Invalid params"
    else if int_beq code internal_error
    then "Internal error"
    else if int_beq code server_busy
    then "Server busy"
    else if int_beq code timeout
    then "Timeout"
    else if int_beq code not_found
    then "Not found"
    else if int_beq code unauthorized
    then "Unauthorized"
    else if int_beq code forbidden
    then "Forbidden"
    else "Unknown error"
