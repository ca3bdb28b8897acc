-- ===== src/Daemon/Status.antt =====
-- How the program of src/daemon/main.cpp ends.
use test_ai_agent.Prelude.{
  String, Bool, true, false, ◌||◌, List, [], Option, some, ◌≡◌, refl, arith, ◌∙◌, ap, Bool-cases,
  inl, inr, ℕ, if◌then◌else◌,
}
use test_ai_agent.Prelude.Int.{int_beq}
use test_ai_agent.Prelude.Exec.{Exec, returns, crashes}
use test_ai_agent.Prelude.Utf8.{utf8}
use test_ai_agent.Json.{JsonLib}
use test_ai_agent.Core.Logging.Level.{LogLevel}
use test_ai_agent.Core.Logging.Logger.{Logger, set_min_level}
use test_ai_agent.Core.Signals.Handler
use test_ai_agent.Core.Signals.Handler.{SetUp, SignalHandler, no_signal, new_handler}
use test_ai_agent.Core.Signals.Loop.{IsFlagged, is_ending, asked, main_loop-asked}
use test_ai_agent.Tasks.State.{ITask}
use test_ai_agent.Tasks.Manager.Defs.{TaskManager, new_manager}
use test_ai_agent.Tasks.Manager.Null.{IsNull}
use test_ai_agent.Tasks.Manager.Shutdown.{stop_all_tasks-crashes}
use test_ai_agent.Commands.Registry.{register_command}
use test_ai_agent.Ipc.Server.Setup.{new_server, default_config}
use test_ai_agent.Ipc.Server.Lifecycle.{succeeds, initialize-Kept}
use test_ai_agent.Daemon.Options.{proceed, parse}
use test_ai_agent.Daemon.Main.{Calls, main, set_up, serve, shut_down}

-- The handler that `initialize` leaves after success waits for a signal.
initialized :
    (calls : SetUp)
    → (Handler.initialize calls new_handler).1 ≡ true
    → ((Handler.initialize calls new_handler).0.shutdown_requested ≡ false)
      × ((Handler.initialize calls new_handler).0.pending_signal ≡ no_signal)
unfolding Handler.initialize
initialized calls h = ground arith

or_false : (b : Bool) → (b || false) ≡ b
or_false true = refl
or_false false = refl

module _ {Json T : Type 0} (J : JsonLib Json) (ops : ITask T) (calls : Calls T Json)
    (args : List String) (socket_path : String) (log_level : LogLevel) (logger : Logger) where
  -- The server is initialised or not, and the loop is left or not.
  abbrev served : Option (Exec ℕ)
  served =
      if succeeds calls.socket calls.epoll (utf8 socket_path)
      then shut_down J ops (asked calls.rounds) calls.thread_left
      else some (returns 1)

  serve-status :
      (m : TaskManager T Json) (h : SignalHandler) (l : Logger)
      → IsFlagged h
      → h.shutdown_requested ≡ false
      → int_beq calls.socket.made calls.epoll.made ≡ false
      → (serve J ops calls socket_path m h l).status ≡ served
  unfolding serve
  serve-status m h l flagged up apart =
      let server = new_server (record default_config { socket_path = socket_path }) m in
      let (result, _) =
        initialize-Kept calls.socket calls.epoll (utf8 socket_path) server [] tt (apart, tt) refl in
      elim (Bool-cases (succeeds calls.socket calls.epoll (utf8 socket_path))) [
        | inl good ↦
            rw (serve, result, good)
              (ap (λ left. shut_down J ops left calls.thread_left)
                (main_loop-asked calls.rounds h flagged ∙ rw up (or_false (asked calls.rounds))))
        | inr bad ↦ rw (serve, result, bad) refl
      ]

  -- If the options are fine, the signal handler is initialised and the kernel gives the socket and
  -- the epoll instance different descriptors, the status of the daemon is 1 where the server
  -- cannot be initialised; otherwise the main loop is left exactly if a SIGINT or a SIGTERM
  -- arrives in some round, and the status is that of the shutdown that follows.
  pub main-status :
      parse args ≡ proceed socket_path log_level
      → (Handler.initialize calls.signals new_handler).1 ≡ true
      → int_beq calls.socket.made calls.epoll.made ≡ false
      → (main J ops calls args new_handler logger).status ≡ (
          if succeeds calls.socket calls.epoll (utf8 socket_path)
          then shut_down J ops (asked calls.rounds) calls.thread_left
          else some (returns 1))
  unfolding main set_up register_command new_manager
  main-status parsed ready apart =
      let (up, waiting) = initialized calls.signals ready in
      rw (parsed, main, set_up, ready)
        (serve-status _ (Handler.initialize calls.signals new_handler).0
          (set_min_level log_level logger) (λ ending. cc (ap is_ending waiting, ending)) up apart)

  -- If the daemon starts, the main loop is left for a signal, the thread of the server ends, and
  -- the manager that it leaves has an entry without a task, then the daemon crashes instead of
  -- ending.
  pub main-crashes :
      (id : String) (m : TaskManager T Json)
      → parse args ≡ proceed socket_path log_level
      → (Handler.initialize calls.signals new_handler).1 ≡ true
      → int_beq calls.socket.made calls.epoll.made ≡ false
      → succeeds calls.socket calls.epoll (utf8 socket_path) ≡ true
      → asked calls.rounds ≡ true
      → calls.thread_left ≡ some m
      → IsNull id m.tasks
      → (main J ops calls args new_handler logger).status ≡ some crashes
  unfolding shut_down
  main-crashes id m parsed ready apart good wanted left null =
      main-status parsed ready apart
      ∙ rw (good, wanted, left, shut_down, stop_all_tasks-crashes ops id m null) refl
