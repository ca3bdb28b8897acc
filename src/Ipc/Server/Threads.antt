-- ===== src/Ipc/Server/Threads.antt =====
-- The thread of `run` of src/ipc/unix_socket_server.cpp, with the main thread of src/daemon/main.cpp,
-- which calls `stop` and then waits for the thread to end.
use test_ai_agent.Prelude.{true, false, ◌||◌, List, ◌≡◌, refl, if◌then◌else◌}
use test_ai_agent.Json.{JsonLib}
use test_ai_agent.Cli.Socket.{is_negative}
use test_ai_agent.Ipc.Server.Defs.{Server, CommandHandler}
use test_ai_agent.Ipc.Server.Events.{Event, handle_all, stop}

-- Where the thread stands: before its first statement, at the test of the loop, in `epoll_wait`, and
-- behind the loop.
pub data Phase : Type 0 where
  starting testing waiting ended : Phase

pub record Threads (D : Type 0) : Type 0 where
  pub server : Server D
  pub phase : Phase

module _ {Json D : Type 0} (J : JsonLib Json) (command_handler : CommandHandler Json D) where
  -- The first statements of `run`: an uninitialised server is left, any other forgets that a stop was
  -- requested.
  unfoldable pub begin : Server D → Threads D
  begin server =
      if is_negative server.server_fd || is_negative server.epoll_fd
      then record { server = server; phase = ended }
      else record {
        server = record server { running = true; stop_requested = false };
        phase = testing;
      }

  -- The test of the loop.
  unfoldable pub test : Server D → Threads D
  test server =
      if server.stop_requested
      then record { server = record server { running = false }; phase = ended }
      else record { server = server; phase = waiting }

  -- The steps that need nothing of the kernel. `stop` may come from the main thread at any time.
  pub data Quiet (s : Threads D) : Threads D → Type 0 where
    begins : s.phase ≡ starting → Quiet s (begin s.server)
    tests : s.phase ≡ testing → Quiet s (test s.server)
    stops : Quiet s (record s { server = stop s.server })

  -- The kernel wakes the thread. `epoll_wait` has no time limit: an event, a signal or an error ends
  -- it, and `stop` is none of these.
  pub data Wake (s : Threads D) : Threads D → Type 0 where
    handles :
        (es : List Event)
        → s.phase ≡ waiting
        → Wake s (record { server = handle_all J command_handler es s.server; phase = testing })
    fails :
        s.phase ≡ waiting
        → Wake s (record { server = record s.server { running = false }; phase = ended })

  pub data QuietSteps (s : Threads D) : Threads D → Type 0 where
    still : QuietSteps s s
    later : {t u : Threads D} → QuietSteps s t → Quiet t u → QuietSteps s u

  waits : {s t : Threads D} → QuietSteps s t → s.phase ≡ waiting → t.phase ≡ waiting
  waits still h = h
  waits (later steps (begins e)) h = cc (waits steps h, e)
  waits (later steps (tests e)) h = cc (waits steps h, e)
  waits (later steps stops) h = waits steps h

  -- If the server is initialised and `stop` comes before the first statement of its thread, `run`
  -- goes to its loop all the same, and the thread is in `epoll_wait` after any steps that need no
  -- event, error or signal, further calls of `stop` included.
  pub stop_forgotten :
      (server : Server D) (t : Threads D)
      → is_negative server.server_fd ≡ false
      → is_negative server.epoll_fd ≡ false
      → QuietSteps (test (begin (stop server)).server) t
      → ((begin (stop server)).phase ≡ testing) × (t.phase ≡ waiting)
  unfolding begin test stop
  stop_forgotten server t a b steps = rw (begin, a, b) (refl, waits steps (rw (begin, a, b) refl))
