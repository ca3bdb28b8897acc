-- ===== src/Lib.antt =====
-- The demo daemon: a background service behind a Unix socket, and its command line client.
--
-- The daemon (src/daemon/main.cpp) fills a registry of commands and a manager of background tasks, and
-- runs a socket server. The server (src/ipc/unix_socket_server.cpp) accepts connections and gives each
-- one a session; a session (src/ipc/session_manager.cpp) reads bytes into a buffer, takes the lines out
-- of it with the parser of src/ipc/json_protocol.cpp and calls the server back with each request; the
-- server calls the command handler and schedules the answer in a session. The main thread waits for a
-- signal (src/core/signal_handler.cpp) and then stops the server and the tasks. The client
-- (src/cli/client.cpp) sends one request and reads one answer.
--
-- Prelude holds what the modules share: tests, lists, signed integers, maps, the results of calls that
-- may throw (Outcome) or also follow a null pointer or read out of range (Exec), `std::to_string` and
-- the bytes of a text (Utf8).
-- Json is nlohmann::json, a parameter: its operations (JsonLib) and the documented behaviour on which
-- the program relies (JsonLaws). Sample is a value type that meets it, for the examples.
-- Ipc.Protocol: the messages, with `to_json` and `from_json` of each, and its error codes.
-- Ipc.Framing: `JsonProtocolParser`: `try_parse`, `serialize` and the `make_*` messages.
-- Ipc.Buffer: `IOBuffer` of include/demo_daemon/ipc/session.hpp. Ops has its operations; a buffer is
-- related to the bytes that it holds by View.Holds; Queue is about sequences of operations.
-- Ipc.Session: `Session`. Defs has its state and the dispatch to the handlers, Read and Write the two
-- directions. Cuts, Chunks, Growth and Pieces are about messages that arrive in pieces; the other modules
-- are about one behaviour each.
-- Ipc.Connections: `ConnectionManager`, with its two maps (Linked) and as one list of sessions (Pool).
-- Ipc.Server: `UnixSocketServer`: its creation and destruction
-- (Setup, Lifecycle), its handlers (Defs), its events and its loop (Events), the states that it reaches
-- (History, Order, Idle), and its thread with the calls of `stop` as steps (Threads, Ending).
-- Core.Signals: `SignalHandler` and the main loop. Core.Results: `Result` of
-- include/demo_daemon/core/result.hpp. Core.Logging: `Logger` and the levels. Commands:
-- `CommandRegistry`, the commands of src/commands and `commandHandler` of `main`.
-- Tasks: `TaskRegistry`, `TaskManager`, and the built-in tasks of src/tasks/builtin with their factory.
-- Cli: `DemoDaemonClient` (Socket, Client, Exchange, Errors) and src/cli/main.cpp: its options (Options,
-- TaskArgs, with `std::stoi` in Strtol), its requests and status (Main, Status) and what it prints
-- (Report). Talk puts the client and the commands of the daemon together, through the messages that are
-- transmitted but not through the sockets and the session that the server looks up for the answer; Reports
-- is about what the client says then, and Silence about a client of the server as it is.
-- Daemon: `main` of src/daemon/main.cpp, from its arguments to its status.
-- Examples applies the theorems at concrete inputs.
--
-- How the code is read: a `std::string` that is a key or a name is a text, one that is transmitted is a
-- list of bytes. `size_t` wraps at 2^64. What the kernel does (`read`, `write`, `accept4`, `fcntl`,
-- `recv`, the clock, the stop token) is an argument: one call, one item of a list. When such a list ends,
-- a loop over a socket would block, which is a result of its own. Code under a mutex is one step.
-- `errno` is an argument where the code reads it without a call that sets it.
--
-- Fuel: `try_parse_messages` has one round more than there are readable bytes, since each message
-- consumes a byte; the loop of `SleepTask` has one round more than there are milliseconds, and
-- the waiting for one task 201, one more than sleeps fit before the deadline. The other
-- loops recurse on the list of what the kernel does.
--
-- The handler of messages that a session keeps refers to the command handler by a parameter of
-- `handle_epoll_event` (src/ipc/unix_socket_server.cpp:264-280) whose lifetime has ended when a later
-- event calls it. That is undefined behaviour; the model takes the command handler as alive.
--
-- Not modelled: the exceptions and the version header of include/demo_daemon/core, which nothing uses;
-- the texts of the usage; the lines that the server and `main` log; the
-- exception of `dump` on a text that is not UTF-8; `modify_epoll`; and the order in which an
-- `unordered_map` is iterated.
-- `main` names two constructors and `register_builtin_tasks`, which the repository does not define; the
-- commands are taken as include/demo_daemon/commands declares them.
pub mod Prelude
pub mod Json
pub mod Ipc
pub mod Tasks
pub mod Commands
pub mod Core
pub mod Cli
pub mod Daemon
pub mod Examples
