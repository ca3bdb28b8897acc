-- ===== src/Ipc/Server/Events.antt =====
-- The events of the epoll instance, and the loop that waits for them.
use test_ai_agent.Prelude.{
  ℕ, ◌+◌, ◌%◌, ◌^◌, Bool, true, false, not, ◌&&◌, ◌||◌, List, [], ◌∷◌, Option, none, some, leb,
  if◌then◌else◌, nat_eq,
}
use test_ai_agent.Prelude.Int.{ℤ, pos, negsuc, int_beq}
use test_ai_agent.Json.{JsonLib}
use test_ai_agent.Ipc.Session.Defs.{Session, Errno, open_session, initialize, is_closed}
use test_ai_agent.Ipc.Session.Read.{Arrival, on_readable}
use test_ai_agent.Ipc.Session.Write.{Departure, on_writable}
use test_ai_agent.Ipc.Connections.Manager.{
  add_session, remove_session_by_fd, get_session_by_fd, session_count, close_all,
}
use test_ai_agent.Ipc.Server.Defs.{Server, CommandHandler, replace_session, server_handlers}

-- What a call of `accept4` gives: a descriptor, with what the calls for it will do, or none.
pub data Accept : Type 0 where
  accepted : (fd : ℤ) (flags_read flags_set watches : Bool) → Accept
  refused : Accept

-- `uint32_t` events of a client, as the conditions test them: `EPOLLIN | EPOLLERR | EPOLLHUP` and
-- `EPOLLOUT`; and what the socket then does.
pub record ClientEvent : Type 0 where
  pub client_fd : ℤ
  pub readable : Bool
  pub writable : Bool
  pub arrivals : List Arrival
  pub departures : List Departure
  pub read_errno : Errno
  pub write_errno : Errno

pub data Event : Type 0 where
  connecting : List Accept → Event
  client : ClientEvent → Event

abbrev pub without : ℤ → List ℤ → List ℤ
without fd [] = []
without fd (x ∷ xs) = let rest = without fd xs in if int_beq x fd then rest else x ∷ rest

module _ {D : Type 0} where
  -- `add_to_epoll` and `remove_from_epoll` of a client.
  abbrev pub add_to_epoll : ℤ → Server D → Server D
  add_to_epoll fd server = record server { watched = fd ∷ server.watched }

  abbrev pub remove_from_epoll : ℤ → Server D → Server D
  remove_from_epoll fd server = record server { watched = without fd server.watched }

  -- One accepted descriptor, below the limit: the session is registered, unless a call fails.
  unfoldable pub register_client : ℤ → Bool → Bool → Bool → Server D → Server D
  register_client fd flags_read flags_set watches server =
      let id = (server.next_session_id + 1) % 2 ^ 64 in
      let (session, ready) = initialize flags_read flags_set (open_session fd id) in
      let counted = record server { next_session_id = id } in
      let registered = record counted {
        connections = add_session (some session) server.connections;
      } in
      if not ready
      then counted
      else if watches
      then add_to_epoll fd registered
      else record registered { connections = remove_session_by_fd fd registered.connections }

  -- The loop of `handle_epoll_event` on the listening socket, with `accept_connection`: it ends when
  -- nothing is pending, and also when the limit is reached.
  unfoldable pub accept_loop : List Accept → Server D → Server D
  accept_loop [] server = server
  accept_loop (refused ∷ more) server = server
  accept_loop (accepted fd flags_read flags_set watches ∷ more) server =
      let rest = accept_loop more (register_client fd flags_read flags_set watches server) in
      if leb server.max_connections (session_count server.connections) then server else rest

  -- A session that is no longer active is taken out.
  unfoldable pub settle : ℤ → Bool → Session × Server D → Server D
  settle fd session_active (session, server) =
      let kept = record server { connections = replace_session session server.connections } in
      let removed = remove_from_epoll fd kept in
      if not session_active || is_closed session
      then record removed { connections = remove_session_by_fd fd removed.connections }
      else kept

  unfoldable pub stop : Server D → Server D
  stop server = record server {
    stop_requested = true;
    connections = (close_all server.connections).0;
  }

  unfoldable pub active_connections : Server D → ℕ
  active_connections server = session_count server.connections

module _ {Json D : Type 0} (J : JsonLib Json) (command_handler : CommandHandler Json D) where
  -- Reading, if the event asks for it.
  unfoldable pub read_event : ClientEvent → Session × Server D → (Session × Server D) × Bool
  read_event e sw =
      if e.readable
      then on_readable J (server_handlers J command_handler) e.arrivals e.read_errno sw
      else (sw, true)

  -- Writing, if the event asks for it and the session is still active.
  unfoldable pub write_event :
      ClientEvent → (Session × Server D) × Bool → (Session × Server D) × Bool
  write_event e ((session, server), session_active) =
      let (session', active', sent) = on_writable e.departures e.write_errno session in
      if session_active && e.writable
      then ((session', server), active')
      else ((session, server), session_active)

  unfoldable pub client_event : ClientEvent → Server D → Server D
  client_event e server = elim (get_session_by_fd e.client_fd server.connections) [
    | none ↦ remove_from_epoll e.client_fd server
    | some session ↦
        let (sw, session_active) = write_event e (read_event e (session, server)) in
        settle e.client_fd session_active sw
  ]

  unfoldable pub handle_epoll_event : Event → Server D → Server D
  handle_epoll_event (connecting accepts) server = accept_loop accepts server
  handle_epoll_event (client e) server = client_event e server

  abbrev pub handle_all : List Event → Server D → Server D
  handle_all [] server = server
  handle_all (e ∷ events) server = handle_all events (handle_epoll_event e server)

  -- What a call of `epoll_wait` gives, and whether `stop` was called while it waited.
  pub data Wait : Type 0 where
    events : Bool → List Event → Wait
    interrupted : Bool → Wait
    wait_failed : Wait

  abbrev stopped_if : Bool → Server D → Server D
  stopped_if stops server = if stops then stop server else server

  abbrev leave : Server D → Option (Server D × Bool)
  leave server = some (record server { running = false }, not server.stop_requested)

  -- The loop of `run`; `none` while it goes on. It returns the negation of `stop_requested_`.
  unfoldable pub run_loop : List Wait → Server D → Option (Server D × Bool)
  run_loop [] server = if server.stop_requested then leave server else none
  run_loop (events stops es ∷ more) server =
      let rest = run_loop more (handle_all es (stopped_if stops server)) in
      if server.stop_requested then leave server else rest
  run_loop (interrupted stops ∷ more) server =
      let rest = run_loop more (stopped_if stops server) in
      if server.stop_requested then leave server else rest
  run_loop (wait_failed ∷ more) server = leave server

  unfoldable pub run : List Wait → Server D → Option (Server D × Bool)
  run waits server =
      let started = record server { running = true; stop_requested = false } in
      let uninitialized = some (server, false) in
      elim server.server_fd [
        | negsuc n ↦ uninitialized
        | pos n ↦ elim server.epoll_fd [ negsuc m ↦ uninitialized | pos m ↦ run_loop waits started ]
      ]
