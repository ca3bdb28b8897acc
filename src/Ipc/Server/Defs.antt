-- ===== src/Ipc/Server/Defs.antt =====
-- The server, and the handlers that it gives to its sessions.
use Prim.Native.String.{◌++◌ as append}
use test_ai_agent.Prelude.{
  ℕ, String, Bool, List, Option, none, some, value_or, ◌==◌, if◌then◌else◌, nat_eq,
}
use test_ai_agent.Prelude.Int.{ℤ, pos, to_int32}
use test_ai_agent.Prelude.Outcome.{Outcome, returns, throws}
use test_ai_agent.Prelude.Maps.{insert}
use test_ai_agent.Json.{JsonLib}
use test_ai_agent.Ipc.Protocol.Code.{internal_error}
use test_ai_agent.Ipc.Protocol.Request.{RequestMessage}
use test_ai_agent.Ipc.Protocol.Response.{ResponseMessage}
use test_ai_agent.Ipc.Session.Defs.{Session, Handlers}
use test_ai_agent.Ipc.Session.Write.{schedule_send, schedule_send_error}
use test_ai_agent.Ipc.Connections.Manager.{Connections, get_session_by_fd}

-- `D` is the state on which the command handler acts; `watched` are the descriptors of clients that
-- the epoll instance has.
pub record Server (D : Type 0) : Type 0 where
  pub max_connections : ℕ
  pub server_fd : ℤ
  pub epoll_fd : ℤ
  pub connections : Connections
  pub watched : List ℤ
  pub next_session_id : ℕ
  pub running : Bool
  pub stop_requested : Bool
  pub world : D

abbrev pub CommandHandler : Type 0 → Type 0 → Type 0
CommandHandler Json D = RequestMessage Json → D → D × Outcome (ResponseMessage Json)

-- A session that the map shares is changed in place.
abbrev pub replace_session : Session → Connections → Connections
replace_session s c = record c { sessions_by_id = insert s.session_id s c.sessions_by_id }

module _ {Json : Type 0} (J : JsonLib Json) where
  -- The answer is put under the id of the request; an exception of the command handler is answered
  -- too. The events of the descriptor stay what they are.
  unfoldable pub reply : RequestMessage Json → Outcome (ResponseMessage Json) → Session → Session
  reply msg (returns response) session = schedule_send J (record response { id = msg.id }) session
  reply msg (throws what) session =
      schedule_send_error J
        (record {
          id = msg.id;
          error = record {
            code = internal_error;
            message = append "Internal error: " what;
            payload = none;
          };
        })
        session

module _ {Json D : Type 0} (J : JsonLib Json) (command_handler : CommandHandler Json D) where
  unfoldable pub on_message : RequestMessage Json → Session × D → Session × D
  on_message msg (session, world) =
      let (world', outcome) = command_handler msg world in (reply J msg outcome session, world')

  -- The handler of every session: the session that answers is looked up by the id of the request,
  -- as if that were a descriptor. It may be the session that read the request, or another one.
  unfoldable pub message_handler :
      RequestMessage Json → Session × Server D → (Session × Server D) × Option String
  message_handler msg (current, server) =
      elim (get_session_by_fd (to_int32 (value_or msg.id (pos 0))) server.connections) [
        | none ↦ ((current, server), none)
        | some found ↦
            if found.session_id == current.session_id
            then (let (session, world) = on_message msg (current, server.world) in
                ((session, record server { world = world }), none))
            else (let (session, world) = on_message msg (found, server.world) in
                (
                  (
                    current,
                    record server {
                      connections = replace_session session server.connections;
                      world = world;
                    },
                  ),
                  none,
                ))
      ]

  -- The handler of errors only logs.
  abbrev pub server_handlers : Handlers Json (Server D)
  server_handlers = record { on_message = some message_handler; on_error = some (λ error sw. sw) }
