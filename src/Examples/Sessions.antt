-- ===== src/Examples/Sessions.antt =====
-- Examples for a session.
use test_ai_agent.Prelude.{
  List, ℕ, ◌*◌, ◌+◌, ◌<◌, ◌^◌, some, ◌≤◌, true, false, [], ◌∷◌, ◌++◌, none, ◌≡◌, refl, arith,
  length, length-replicate,
}
use test_ai_agent.Json.Sample.{Value, text}
use test_ai_agent.Ipc.Protocol.Message
use test_ai_agent.Ipc.Protocol.Message.{JsonMessage, fill}
use test_ai_agent.Prelude.Int.{pos}
use test_ai_agent.Ipc.Protocol.Response.{ResponseMessage}
use test_ai_agent.Ipc.Protocol.Fields.{put_if}
use test_ai_agent.Ipc.Framing.Scan.{Bytes, find_first_not_of}
use test_ai_agent.Ipc.Framing.Parser.{parse_line, serialize}
use test_ai_agent.Ipc.Buffer.Ops.{IoBuffer, new, get_read_view, available_for_read}
use test_ai_agent.Ipc.Buffer.View.{Holds, new-Holds}
use test_ai_agent.Ipc.Session.Defs.{
  Session, Handlers, active, reading, writing, again, other, max_buffer_size, close,
}
use test_ai_agent.Ipc.Session.Read.{arrived, hung_up, try_parse_messages, on_readable}
use test_ai_agent.Ipc.Session.Write.{taken, refused, on_writable, response_message, schedule_send}
use test_ai_agent.Ipc.Session.Deliver.{dispatch_all, stream}
use test_ai_agent.Ipc.Session.Room.{Ready}
use test_ai_agent.Ipc.Session.Loop.{
  next_message, IsReady, try_parse_messages_ends, on_readable-IsReady,
}
use test_ai_agent.Ipc.Session.Chunks.{settled}
use test_ai_agent.Ipc.Session.Pieces.{on_readable-pieces}
use test_ai_agent.Ipc.Session.Stall.{NoMessage, BeginsWith, on_readable-stalled}
use test_ai_agent.Ipc.Session.Overflow.{on_readable_full}
use test_ai_agent.Ipc.Session.Send.{schedule_send-Holds, Conserves, on_writable-Conserves}
use test_ai_agent.Ipc.Server.Defs.{Server, server_handlers}
use test_ai_agent.Ipc.Server.Answers.{server_handlers-LeavesInput}
use test_ai_agent.Examples.Data.{
  lib, lib_laws, ping, ping-Deliverable, ping_buffer, ping_bytes, ping_buffer-Holds,
  ping_buffer-Ready, empty_buffer-Holds, session, echo, server,
}

abbrev handlers : Handlers Value (Server ℕ)
handlers = server_handlers lib echo

ping-stream : ping_bytes ≡ stream lib (ping ∷ []) ++ 123 ∷ []
unfolding serialize Message.to_json fill put_if
ping-stream = refl

try_parse_messages_ends_example :
    ((next_message lib (try_parse_messages lib handlers (session, server))).0 ≡ none)
    × ((rest : Bytes) × Ready
          (try_parse_messages lib handlers (session, server)).0.read_buffer
          rest)
try_parse_messages_ends_example =
    try_parse_messages_ends lib handlers (server_handlers-LeavesInput lib echo) (session, server)
      ping_bytes ping_buffer-Ready

on_readable-IsReady_example :
    IsReady
      (on_readable lib handlers (arrived (125 ∷ 10 ∷ []) ∷ hung_up ∷ []) again (session, server)).0
on_readable-IsReady_example =
    on_readable-IsReady lib handlers (server_handlers-LeavesInput lib echo)
      (arrived (125 ∷ 10 ∷ []) ∷ hung_up ∷ []) again session server (ping_bytes, ping_buffer-Ready)

-- A blank line.
abbrev blank : Bytes
blank = 32 ∷ []

blank-NoMessage : NoMessage lib blank
unfolding parse_line find_first_not_of
blank-NoMessage = record { one_line = omega arith; short = omega arith; unread = refl }

abbrev stalled : Session
stalled = record session {
  read_buffer = record { bytes = 32 ∷ 10 ∷ 0 ∷ 0 ∷ []; read_pos = 0; write_pos = 2 };
}

stalled-BeginsWith : BeginsWith blank stalled
unfolding get_read_view available_for_read
stalled-BeginsWith = record {
  rest = [];
  ready = record {
    holds = record {
      valid = record { ordered = omega arith; inside = omega arith; fits = omega arith };
      view = refl;
    };
    sized = omega arith;
    limit = omega arith;
  };
}

on_readable-stalled_example :
    (on_readable lib handlers (arrived (123 ∷ 125 ∷ 10 ∷ []) ∷ []) again (stalled, server)).0.1
    ≡ server
on_readable-stalled_example =
    on_readable-stalled lib handlers blank blank-NoMessage (arrived (123 ∷ 125 ∷ 10 ∷ []) ∷ [])
      again stalled server stalled-BeginsWith

length-new : (n : ℕ) → length (new n).bytes ≡ n
unfolding new
length-new n = length-replicate {A = ℕ} n 0

abbrev full : Session
full = record session { read_buffer = new (1024 * 1024) }

full_size : max_buffer_size ≤ length full.read_buffer.bytes
full_size = omega (arith, length-new (1024 * 1024))

on_readable_full_example :
    (on_readable lib handlers [] again (full, server)
      ≡ ((record full { state = active }, server), true))
    × (on_readable lib handlers [] (other 104) (full, server)
        ≡ ((close (record full { state = reading }), server), false))
on_readable_full_example = on_readable_full lib handlers [] full server 104 refl full_size

abbrev answering : Session
answering = record session { state = writing; write_buffer = ping_buffer }

on_writable-Conserves_example :
    Conserves (on_writable (taken 2 ∷ refused again ∷ []) again answering) ping_bytes
on_writable-Conserves_example =
    on_writable-Conserves (taken 2 ∷ refused again ∷ []) again answering ping_bytes
      ping_buffer-Holds

abbrev pong : ResponseMessage Value
pong = record { id = some (pos 7); result = text "pong" }

pong_size :
    session.write_buffer.write_pos + length (serialize lib (response_message pong)) + 1 < 2 ^ 63
unfolding serialize Message.to_json fill put_if
pong_size = omega arith

schedule_send-Holds_example :
    Holds
      (schedule_send lib pong session).write_buffer
      (lib.dump (Message.to_json lib (response_message pong)) ++ 10 ∷ 10 ∷ [])
schedule_send-Holds_example = schedule_send-Holds lib pong session [] empty_buffer-Holds pong_size

-- A new session, to which the ping and the beginning of another message arrive in three pieces.
abbrev new_session : Session
new_session = record session { read_buffer = new 4096 }

new_session-Ready : Ready new_session.read_buffer []
new_session-Ready = record {
  holds = new-Holds 4096 (omega arith);
  sized = omega (arith, length-new 4096);
  limit = omega (arith, length-new 4096);
}

new_front : new_session.read_buffer.read_pos ≡ 0
unfolding new
new_front = refl

abbrev pieces : List Bytes
pieces = (123 ∷ []) ∷ (125 ∷ []) ∷ (10 ∷ 123 ∷ []) ∷ []

ping_short : length (serialize lib ping) ≤ 100
unfolding serialize Message.to_json fill put_if
ping_short = omega arith

on_readable-pieces_example :
    (b : IoBuffer) × Ready b (123 ∷ [])
    × (on_readable lib handlers
          (arrived (123 ∷ []) ∷ arrived (125 ∷ []) ∷ arrived (10 ∷ 123 ∷ []) ∷ [])
          again
          (new_session, server)
        ≡ (
          settled b (
              dispatch_all lib handlers
                (ping ∷ [])
                (record new_session { state = reading }, server)),
          true,
        ))
on_readable-pieces_example =
    on_readable-pieces lib handlers (server_handlers-LeavesInput lib echo) lib_laws again 1024
      (123 ∷ []) (record { one_line = omega arith; short = omega arith }) (omega arith)
      (omega arith) pieces new_session server [] (ping ∷ []) refl new_session-Ready new_front
      (record { one_line = tt; short = omega arith }) (omega arith) (omega (arith, length-new 4096))
      (omega (arith, length-new 4096)) (ping-Deliverable, tt) (omega (arith, ping_short), tt)
      ((omega arith, omega arith), ((omega arith, omega arith), ((omega arith, omega arith), tt)))
      ping-stream
