-- ===== src/Ipc/Server/Around.antt =====
-- What the handlers keep of a session and the server, an event of src/ipc/unix_socket_server.cpp keeps.
use test_ai_agent.Prelude.{ℕ, Bool, ◌&&◌, inl, inr, Bool-cases}
use test_ai_agent.Prelude.Int.{ℤ}
use test_ai_agent.Json.{JsonLib}
use test_ai_agent.Ipc.Protocol.Request.{RequestMessage}
use test_ai_agent.Ipc.Session.Defs.{Session, handle_message}
use test_ai_agent.Ipc.Session.World.{About, on_readable-About, on_writable-About}
use test_ai_agent.Ipc.Server.Defs.{Server, CommandHandler, server_handlers}
use test_ai_agent.Ipc.Server.Events.{ClientEvent, read_event, write_event}

module _ {Json D : Type 0} (J : JsonLib Json) (command_handler : CommandHandler Json D)
    (Q : ℕ → ℤ → Server D → Type 0)
    (handled : (msg : RequestMessage Json) (sw : Session × Server D)
      → About Q sw
      → About Q (handle_message J (server_handlers J command_handler) msg sw)) where
  read_event-About :
      (e : ClientEvent) (s : Session) (server : Server D)
      → About Q (s, server)
      → About Q (read_event J command_handler e (s, server)).0
  unfolding read_event
  read_event-About e s server h = elim (Bool-cases e.readable) [
    | inl reads ↦
        rw (reads, read_event)
          (on_readable-About J (server_handlers J command_handler) Q handled e.arrivals e.read_errno
            s server h)
    | inr idle ↦ rw (idle, read_event) h
  ]

  write_event-About :
      (e : ClientEvent) (s : Session) (server : Server D) (session_active : Bool)
      → About Q (s, server)
      → About Q (write_event J command_handler e ((s, server), session_active)).0
  unfolding write_event
  write_event-About e s server session_active h = elim (Bool-cases (session_active && e.writable)) [
    | inl writes ↦
        rw (writes, write_event) (on_writable-About Q e.departures e.write_errno s server h)
    | inr idle ↦ rw (idle, write_event) h
  ]

  pub event-About :
      (e : ClientEvent) (s : Session) (server : Server D)
      → About Q (s, server)
      → About Q (write_event J command_handler e (read_event J command_handler e (s, server))).0
  event-About e s server h =
      let ((s', server'), session_active) = read_event J command_handler e (s, server) in
      write_event-About e s' server' session_active (read_event-About e s server h)
