-- ===== src/Daemon/Main.antt =====
-- `main` of src/daemon/main.cpp: what it sets up, its loop, and its end.
use test_ai_agent.Prelude.{String, Bool, not, List, [], Option, none, some, ℕ, if◌then◌else◌}
use test_ai_agent.Prelude.Exec.{Exec, returns, throws, crashes, ◌>>=◌}
use test_ai_agent.Prelude.Utf8.{utf8}
use test_ai_agent.Json.{JsonLib}
use test_ai_agent.Core.Logging.Level.{LogLevel, info}
use test_ai_agent.Core.Logging.Logger.{Logger, new_logger, set_min_level}
use test_ai_agent.Core.Signals.Handler
use test_ai_agent.Core.Signals.Handler.{SetUp, SignalHandler}
use test_ai_agent.Core.Signals.Loop.{Round, main_loop}
use test_ai_agent.Tasks.State.{ITask}
use test_ai_agent.Tasks.Registry.{TaskRegistry}
use test_ai_agent.Tasks.Manager.Defs.{TaskManager, new_manager}
use test_ai_agent.Tasks.Manager.Calls.{stop_all_tasks}
use test_ai_agent.Commands.Main.{builtin_commands, register_all}
use test_ai_agent.Ipc.Server.Setup.{SocketCalls, EpollCalls, default_config, new_server, initialize}
use test_ai_agent.Daemon.Options.{
  proceed, shows_usage, shows_version, unknown_level, unknown_option, parse,
}

-- What the program meets: the calls of its set-up, the registry that `register_builtin_tasks` fills,
-- which the repository does not define, the rounds of its loop, and the task manager when the thread of
-- the server has ended, if it ends.
pub record Calls (T Json : Type 0) : Type 0 where
  pub signals : SetUp
  pub registered : TaskRegistry T Json
  pub socket : SocketCalls
  pub epoll : EpollCalls
  pub rounds : List Round
  pub thread_left : Option (TaskManager T Json)

-- The logger of the program, the one that the server was given, and the exit status; `none` while
-- the program runs.
pub record Outline : Type 0 where
  pub logger : Logger
  pub server_logger : Option Logger
  pub status : Option (Exec ℕ)

abbrev exits : Logger → Option Logger → ℕ → Outline
exits logger server_logger n = record {
  logger = logger;
  server_logger = server_logger;
  status = some (returns n);
}

module _ {Json T : Type 0} (J : JsonLib Json) (ops : ITask T) where
  -- From the end of the loop on: the thread is waited for, and the tasks are stopped.
  unfoldable pub shut_down : Bool → Option (TaskManager T Json) → Option (Exec ℕ)
  shut_down left thread_left =
      if left
      then elim thread_left [
        | none ↦ none
        | some m ↦ some ((stop_all_tasks ops m).1 >>= λ _. returns 0)
      ]
      else none

  -- From the configuration of the server on, which logs at the default level.
  unfoldable pub serve :
      Calls T Json → String → TaskManager T Json → SignalHandler → Logger → Outline
  unfolding shut_down
  serve calls socket_path m h logger =
      let config = record default_config { socket_path = socket_path } in
      let server_logger = some (new_logger info) in
      let (after, up) =
        initialize calls.socket calls.epoll (utf8 config.socket_path) (new_server config m, []) in
      if not up then exits logger server_logger 1 else record {
        logger = logger;
        server_logger = server_logger;
        status = shut_down (main_loop calls.rounds h).1 calls.thread_left;
      }

  -- From the level of the log on.
  unfoldable pub set_up : Calls T Json → String → LogLevel → SignalHandler → Logger → Outline
  unfolding serve
  set_up calls socket_path log_level h logger =
      let (h', ready) = Handler.initialize calls.signals h in
      let logger' = set_min_level log_level logger in
      let failed : Exec ℕ → Outline =
        λ status. record { logger = logger'; server_logger = none; status = some status } in
      if not ready then exits logger' none 1 else elim (register_all (builtin_commands J ops) []) [
        | returns commands ↦ elim (new_manager (some calls.registered)) [
          | returns m ↦ serve calls socket_path m h' logger'
          | throws what ↦ failed (throws what)
          | crashes ↦ failed crashes
        ]
        | throws what ↦ failed (throws what)
        | crashes ↦ failed crashes
      ]

  unfoldable pub main : Calls T Json → List String → SignalHandler → Logger → Outline
  unfolding set_up
  main calls args h logger = elim (parse args) [
    | proceed socket_path log_level ↦ set_up calls socket_path log_level h logger
    | shows_usage ↦ exits logger none 0
    | shows_version ↦ exits logger none 0
    | unknown_level level ↦ exits logger none 1
    | unknown_option arg ↦ exits logger none 1
  ]
