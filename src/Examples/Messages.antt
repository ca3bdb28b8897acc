-- ===== src/Examples/Messages.antt =====
-- Examples for the protocol, the framing and the buffer.
use test_ai_agent.Prelude.{List, [], ◌∷◌, ◌++◌, none, some, ◌≡◌, refl, arith, length}
use test_ai_agent.Prelude.Int.{neg}
use test_ai_agent.Prelude.Outcome.{returns}
use test_ai_agent.Json.Sample.{Value, nul, text}
use test_ai_agent.Ipc.Protocol.Code.{not_found}
use test_ai_agent.Ipc.Protocol.Fields.{read_id}
use test_ai_agent.Ipc.Protocol.Request.{RequestMessage}
use test_ai_agent.Ipc.Protocol.ErrorResponse.{ErrorResponseMessage}
use test_ai_agent.Ipc.Protocol.Message
use test_ai_agent.Ipc.Protocol.Message.{
  JsonMessage, IsMessage, read_method, read_error, validate, from_json-IsMessage,
}
use test_ai_agent.Ipc.Protocol.RoundTrip.{from_json-to_json}
use test_ai_agent.Ipc.Framing.Parser.{try_parse, serialize, default_max_message_size}
use test_ai_agent.Ipc.Framing.Lines.{try_parse-serialize}
use test_ai_agent.Ipc.Buffer.Ops.{
  new, get_read_view, available_for_read, available_for_write, compact, move_front, advance_read,
  advance_write, resize, store,
}
use test_ai_agent.Ipc.Buffer.Queue.{
  Op, writes, reads, resizes, compacts, act_all, AllAllowed, act_all-replay,
}
use test_ai_agent.Examples.Data.{
  lib, lib_laws, ping, ping_value, ping-IsMessage, ping-Fits, ping_parsed, ping_size,
}

from_json-to_json_example : Message.from_json lib (Message.to_json lib ping) ≡ returns (some ping)
from_json-to_json_example = from_json-to_json lib lib_laws ping ping-IsMessage ping-Fits

abbrev request : RequestMessage Value
request = record { id = some (neg 3); method = "tasks.add"; params = text "heartbeat" }

abbrev failure : ErrorResponseMessage Value
failure = record {
  id = none;
  error = record { code = not_found; message = "no such task"; payload = some nul };
}

ping_read : Message.from_json lib ping_value ≡ returns (some ping)
unfolding Message.from_json read_id read_method read_error validate
ping_read = refl

try_parse-serialize_example :
    try_parse lib default_max_message_size (serialize lib ping ++ 123 ∷ [])
    ≡ (some ping, length (serialize lib ping))
try_parse-serialize_example =
    try_parse-serialize lib lib_laws default_max_message_size ping (123 ∷ []) ping-IsMessage
      ping-Fits ping_parsed ping_size

-- Two bytes are written, one is read, and the room of that one is used again.
abbrev buffer_ops : List Op
buffer_ops =
    writes (65 ∷ 66 ∷ [])
    ∷ reads 1
    ∷ compacts
    ∷ writes (67 ∷ [])
    ∷ resizes 4
    ∷ writes (68 ∷ 69 ∷ [])
    ∷ []

buffer_ops-AllAllowed : AllAllowed buffer_ops (new 2)
unfolding new available_for_write available_for_read compact move_front advance_read advance_write
    store resize
buffer_ops-AllAllowed = (
  omega arith,
  (omega arith, (tt, (omega arith, ((omega arith, omega arith), (omega arith, tt))))),
)

act_all-replay_example :
    (get_read_view (act_all buffer_ops (new 2)) ≡ 66 ∷ 67 ∷ 68 ∷ 69 ∷ [])
    × (available_for_read (act_all buffer_ops (new 2)) ≡ 4)
act_all-replay_example = act_all-replay buffer_ops 2 (omega arith) buffer_ops-AllAllowed
