-- ===== src/Examples/Servers.antt =====
-- Examples for the server and its connections.
use test_ai_agent.Prelude.{
  ℕ, ◌≤◌, true, List, [], ◌∷◌, some, ◌≡◌, ◌≢◌, ◌⊎◌, refl, arith, value_or, nat_eq,
}
use test_ai_agent.Prelude.Int.{pos, to_int32, int_eq}
use test_ai_agent.Prelude.Maps.{lookup, insert, erase}
use test_ai_agent.Json.Sample.{Value, nul}
use test_ai_agent.Ipc.Protocol.Request.{RequestMessage}
use test_ai_agent.Ipc.Session.Defs.{Session, again}
use test_ai_agent.Ipc.Session.Read.{arrived}
use test_ai_agent.Ipc.Session.Write.{taken}
use test_ai_agent.Ipc.Session.Silent.{Call, readable, sends, writable, sent_by}
use test_ai_agent.Ipc.Connections.Manager.{
  no_connections, add_session, remove_session, remove_session_by_fd, get_session, get_session_by_fd,
  session_count,
}
use test_ai_agent.Ipc.Connections.Pool.{
  Op, adds, removes, removes_by_fd, act_all, AllAllowed, get_session-act_all,
}
use test_ai_agent.Ipc.Connections.Linked.{
  Linked, IsFresh, no_connections-Linked, add_session-Linked,
}
use test_ai_agent.Ipc.Server.Defs.{Server, message_handler, server_handlers}
use test_ai_agent.Ipc.Server.Events.{stop, register_client, ClientEvent, client_event}
use test_ai_agent.Ipc.Server.Order.{InOrder}
use test_ai_agent.Ipc.Server.History.{CanAccept, Steps-InOrder, serves, accepts, stops, done, more}
use test_ai_agent.Ipc.Server.Idle.{AllIdle, event_sends, event_sends-Steps}
use test_ai_agent.Ipc.Server.Answers.{server_silent}
use test_ai_agent.Ipc.Server.Routes.{message_handler_others}
use test_ai_agent.Examples.Data.{lib, session, echo, connections, server}

-- The ping arrives, is answered, and the socket is writable.
abbrev calls : List (Call Value)
calls =
    readable (arrived (123 ∷ 125 ∷ 10 ∷ []) ∷ []) again
    ∷ sends (record { id = some (pos 7); result = nul })
    ∷ writable (taken 3 ∷ []) again
    ∷ []

server_silent_example : sent_by lib (server_handlers lib echo) calls (session, server) ≡ []
server_silent_example = server_silent lib echo calls session server refl

session-IsFresh : IsFresh session no_connections
unfolding lookup
session-IsFresh = record { id_fresh = refl; fd_fresh = refl }

connections-Linked : Linked connections
unfolding add_session insert
connections-Linked = add_session-Linked session no_connections no_connections-Linked session-IsFresh

-- A first request, with the number 1: the session of descriptor 7 is not the one that answers.
abbrev first_request : RequestMessage Value
first_request = record { id = some (pos 1); method = "ping"; params = nul }

registered : get_session session.session_id connections ≡ some session
unfolding get_session lookup
registered = refl

other_fd : session.client_fd ≢ to_int32 (value_or first_request.id (pos 0))
unfolding to_int32
other_fd = λ e. cc e

message_handler_others_example :
    let after = (message_handler lib echo first_request (session, server)).0 in
    (get_session session.session_id after.1.connections ≡ some session)
    × ((session.session_id ≢ session.session_id) ⊎ (after.0 ≡ session))
message_handler_others_example =
    message_handler_others lib echo first_request session session server connections-Linked
      registered other_fd

one_session : session_count connections ≤ 2
unfolding session_count
one_session = omega arith

-- The rest of the second message, and a socket that takes bytes.
abbrev event : ClientEvent
event = record {
  client_fd = pos 7;
  readable = true;
  writable = true;
  arrivals = arrived (125 ∷ 10 ∷ []) ∷ [];
  departures = taken 3 ∷ [];
  read_errno = again;
  write_errno = again;
}

server-InOrder : InOrder server
unfolding add_session insert lookup
server-InOrder = record {
  linked = connections-Linked;
  limit = one_session;
  numbered = λ i t e. ground arith;
}

abbrev next_server : Server ℕ
next_server = register_client (pos 8) true true true server

server-CanAccept : CanAccept (pos 8) server
unfolding add_session insert lookup session_count
server-CanAccept = record { room = refl; unused = refl; counts = omega arith }

abbrev served_server : Server ℕ
served_server = client_event lib echo event next_server

-- A second client is accepted, the first is served, and the server is stopped.
Steps-InOrder_example : InOrder (stop served_server)
Steps-InOrder_example =
    Steps-InOrder lib echo server (stop served_server)
      (more server next_server (stop served_server)
        (accepts (pos 8) true true true server server-CanAccept)
        (more next_server served_server (stop served_server) (serves event next_server) (
          more served_server (stop served_server) (stop served_server) (stops served_server)
            (done (stop served_server)))))
      server-InOrder

-- A descriptor is given out again after its session is gone.
abbrev second_session : Session
second_session = record session { session_id = 2; client_fd = pos 8 }

abbrev third_session : Session
third_session = record session { session_id = 3 }

abbrev pool_ops : List Op
pool_ops =
    adds session ∷ adds second_session ∷ removes_by_fd (pos 7) ∷ adds third_session ∷ removes 2 ∷ []

pool_ops-AllAllowed : AllAllowed pool_ops no_connections
unfolding add_session remove_session remove_session_by_fd insert erase lookup
pool_ops-AllAllowed = (
  record { id_fresh = refl; fd_fresh = refl },
  (
    record { id_fresh = refl; fd_fresh = refl },
    (tt, (record { id_fresh = refl; fd_fresh = refl }, (tt, tt))),
  ),
)

get_session-act_all_example :
    (get_session 3 (act_all pool_ops no_connections) ≡ some third_session)
    × (get_session_by_fd (pos 7) (act_all pool_ops no_connections) ≡ some third_session)
    × (session_count (act_all pool_ops no_connections) ≡ 1)
get_session-act_all_example = get_session-act_all pool_ops 3 (pos 7) pool_ops-AllAllowed

server-AllIdle : AllIdle server.connections
unfolding lookup
server-AllIdle i t e = ground arith

-- The first client is served after a second one was accepted.
event_sends-Steps_example : event_sends lib echo event next_server ≡ []
event_sends-Steps_example = event_sends-Steps lib echo server next_server event server-AllIdle (
    more server next_server next_server (accepts (pos 8) true true true server server-CanAccept)
      (done next_server))
