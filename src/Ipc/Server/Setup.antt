-- ===== src/Ipc/Server/Setup.antt =====
-- `initialize` of src/ipc/unix_socket_server.cpp, with the calls of the kernel that it makes.
use test_ai_agent.Prelude.{
  ℕ, ◌*◌, String, Bool, true, false, not, List, [], ◌∷◌, length, ltb, if◌then◌else◌,
}
use test_ai_agent.Prelude.Int.{ℤ, pos, negsuc, neg}
use test_ai_agent.Cli.Socket.{is_negative}
use test_ai_agent.Ipc.Framing.Scan.{Bytes}
use test_ai_agent.Ipc.Connections.Manager.{no_connections}
use test_ai_agent.Ipc.Server.Defs.{Server}
use test_ai_agent.Ipc.Server.Events.{without, stop}

-- Times are in milliseconds.
pub record UnixSocketConfig : Type 0 where
  pub socket_path : String
  pub socket_permissions : ℕ
  pub max_connections : ℕ
  pub read_timeout : ℕ
  pub write_timeout : ℕ
  pub max_message_size : ℕ
  pub backlog : ℕ

-- The default of the permissions is 0660.
abbrev pub default_config : UnixSocketConfig
default_config = record {
  socket_path = "/run/demo_daemon/demo_daemon.sock";
  socket_permissions = 432;
  max_connections = 100;
  read_timeout = 30000;
  write_timeout = 30000;
  max_message_size = 1024 * 1024;
  backlog = 128;
}

-- The constructor, with the state that the command handler acts on.
abbrev pub new_server : {D : Type 0} → UnixSocketConfig → D → Server D
new_server config world = record {
  max_connections = config.max_connections;
  server_fd = neg 1;
  epoll_fd = neg 1;
  connections = no_connections;
  watched = [];
  next_session_id = 0;
  running = false;
  stop_requested = false;
  world = world;
}

-- What `stat` finds at the path: an error, which may be `ENOENT`, or a file.
pub data Stat : Type 0 where
  stat_fails : Bool → Stat
  a_socket : Stat
  another_file : Stat

-- What `unlink` does: it fails, with `ENOENT` or another error, or the file is gone.
pub data Unlink : Type 0 where
  unlink_fails : Bool → Unlink
  unlinked : Unlink

-- `errno == ENOENT` where neither call set it is what an earlier call left.
unfoldable pub cleanup_socket : Stat → Unlink → Bool → Bool
cleanup_socket (stat_fails enoent) removal left = enoent
cleanup_socket a_socket unlinked left = true
cleanup_socket a_socket (unlink_fails enoent) left = enoent
cleanup_socket another_file removal left = left

-- The descriptors that the process has open.
abbrev pub Open : Type 0
Open = List ℤ

-- What the calls that make a socket give: the descriptor, and whether `bind` and `listen` succeed.
-- A failing `chmod` is only logged.
pub record SocketCalls : Type 0 where
  pub made : ℤ
  pub binds : Bool
  pub listens : Bool

-- `sizeof(addr.sun_path)`
abbrev pub sun_path_size : ℕ
sun_path_size = 108

unfoldable pub create_server_socket : SocketCalls → Bytes → Open → Open × ℤ
create_server_socket calls socket_path fds =
    let opened = calls.made ∷ fds in
    if is_negative calls.made
    then (fds, neg 1)
    else if not (ltb (length socket_path) sun_path_size)
    then (without calls.made opened, neg 1)
    else if not calls.binds
    then (without calls.made opened, neg 1)
    else if not calls.listens
    then (without calls.made opened, neg 1)
    else (opened, calls.made)

-- And of those that make the epoll instance, and add the socket to it.
pub record EpollCalls : Type 0 where
  pub made : ℤ
  pub adds : Bool

abbrev pub close_if_open : ℤ → Open → Open
close_if_open (pos n) fds = without (pos n) fds
close_if_open (negsuc n) fds = fds

abbrev pub closed_fd : ℤ → ℤ
closed_fd (pos n) = neg 1
closed_fd (negsuc n) = negsuc n

module _ {D : Type 0} where
  -- A failing `cleanup_socket` is only logged.
  unfoldable pub initialize :
      SocketCalls → EpollCalls → Bytes → Server D × Open → (Server D × Open) × Bool
  unfolding create_server_socket
  initialize socket epoll socket_path (server, fds) =
      let (fds', fd) = create_server_socket socket socket_path fds in
      let with_socket = record server { server_fd = fd } in
      if is_negative fd
      then ((with_socket, fds'), false)
      else if is_negative epoll.made
      then ((record server { server_fd = neg 1; epoll_fd = epoll.made }, without fd fds'), false)
      else if not epoll.adds
      then (
        (
          record server { server_fd = neg 1; epoll_fd = neg 1 },
          without fd (without epoll.made (epoll.made ∷ fds')),
        ),
        false,
      )
      else ((record with_socket { epoll_fd = epoll.made }, epoll.made ∷ fds'), true)

  -- The destructor.
  unfoldable pub destroy : Server D × Open → Server D × Open
  unfolding stop
  destroy (server, fds) = (
    record (stop server) {
      server_fd = closed_fd server.server_fd;
      epoll_fd = closed_fd server.epoll_fd;
    },
    close_if_open server.epoll_fd (close_if_open server.server_fd fds),
  )
