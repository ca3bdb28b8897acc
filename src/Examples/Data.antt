-- ===== src/Examples/Data.antt =====
-- The inputs of the examples: a request for a ping, a session that has read it, and a server.
use test_ai_agent.Prelude.{
  ℕ, true, false, List, [], ◌∷◌, Option, none, some, ◌≡◌, ◌≤◌, refl, arith, inl, length,
}
use test_ai_agent.Prelude.Int.{pos}
use test_ai_agent.Prelude.Outcome.{returns}
use test_ai_agent.Json.{JsonLib, JsonLaws}
use test_ai_agent.Json.Sample.{Value, num, text, obj, end, field, sample_json, sample_laws}
use test_ai_agent.Ipc.Protocol.Message
use test_ai_agent.Ipc.Protocol.Fields.{put_if}
use test_ai_agent.Ipc.Protocol.Message.{JsonMessage, IsMessage, Fits, fill}
use test_ai_agent.Ipc.Framing.Scan.{Bytes}
use test_ai_agent.Ipc.Framing.Parser.{serialize, default_max_message_size}
use test_ai_agent.Ipc.Buffer.Ops.{IoBuffer, get_read_view, available_for_read}
use test_ai_agent.Ipc.Buffer.View.{Holds}
use test_ai_agent.Ipc.Session.Defs.{Session, active}
use test_ai_agent.Ipc.Session.Deliver.{Deliverable}
use test_ai_agent.Ipc.Session.Room.{Ready}
use test_ai_agent.Ipc.Connections.Manager.{Connections}
use test_ai_agent.Ipc.Server.Defs.{Server, CommandHandler}

-- `{"id": 7, "method": "ping"}`
abbrev pub ping_value : Value
ping_value = obj (field "method" (text "ping") (field "id" (num (pos 7)) end))

abbrev parse_ping : List ℕ → Option Value
parse_ping bytes = some ping_value

abbrev pub lib : JsonLib Value
lib = sample_json parse_ping

pub lib_laws : JsonLaws lib
lib_laws = sample_laws parse_ping

abbrev pub ping : JsonMessage Value
ping = record {
  id = some (pos 7);
  method = some "ping";
  params = none;
  result = none;
  error = none;
}

pub ping-IsMessage : IsMessage ping
ping-IsMessage = record { one = inl refl; not_both = λ e. refl }

pub ping-Fits : Fits ping
ping-Fits = record { id_fits = omega arith; code_fits = λ e h. cc h }

pub ping_parsed : lib.parse (lib.dump (Message.to_json lib ping)) ≡ some (Message.to_json lib ping)
unfolding Message.to_json fill put_if
ping_parsed = refl

pub ping_size : length (serialize lib ping) ≤ default_max_message_size
unfolding serialize Message.to_json fill put_if
ping_size = omega arith

pub ping-Deliverable : Deliverable lib ping
ping-Deliverable = record {
  message = ping-IsMessage;
  numbers = ping-Fits;
  parsed = ping_parsed;
  size = ping_size;
}

-- The ping, the first byte of another message, and a free byte.
abbrev pub ping_buffer : IoBuffer
ping_buffer = record { bytes = 123 ∷ 125 ∷ 10 ∷ 123 ∷ 0 ∷ []; read_pos = 0; write_pos = 4 }

abbrev pub ping_bytes : Bytes
ping_bytes = 123 ∷ 125 ∷ 10 ∷ 123 ∷ []

pub ping_buffer-Holds : Holds ping_buffer ping_bytes
unfolding get_read_view available_for_read
ping_buffer-Holds = record {
  valid = record { ordered = omega arith; inside = omega arith; fits = omega arith };
  view = refl;
}

pub ping_buffer-Ready : Ready ping_buffer ping_bytes
ping_buffer-Ready = record { holds = ping_buffer-Holds; sized = omega arith; limit = omega arith }

abbrev pub empty_buffer : IoBuffer
empty_buffer = record { bytes = 0 ∷ 0 ∷ []; read_pos = 0; write_pos = 0 }

pub empty_buffer-Holds : Holds empty_buffer []
unfolding get_read_view available_for_read
empty_buffer-Holds = record {
  valid = record { ordered = omega arith; inside = omega arith; fits = omega arith };
  view = refl;
}

abbrev pub session : Session
session = record {
  client_fd = pos 7;
  session_id = 1;
  state = active;
  read_buffer = ping_buffer;
  write_buffer = empty_buffer;
}

abbrev pub echo : CommandHandler Value ℕ
echo request count = (count, returns (record { id = request.id; result = request.params }))

abbrev pub connections : Connections
connections = record { sessions_by_id = (1, session) ∷ []; fd_to_id = (pos 7, 1) ∷ [] }

abbrev pub server : Server ℕ
server = record {
  max_connections = 2;
  server_fd = pos 3;
  epoll_fd = pos 4;
  connections = connections;
  watched = pos 7 ∷ [];
  next_session_id = 1;
  running = true;
  stop_requested = false;
  world = 0;
}
