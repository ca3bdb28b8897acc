-- ===== src/Examples/Systems.antt =====
-- Examples for the exit status of the client, the logger, and the life of the server and of the daemon.
use test_ai_agent.Prelude.{
  ℕ, ◌≤◌, true, false, List, [], ◌∷◌, ◌++◌, none, some, ◌≡◌, ◌≢◌, ◌⊎◌, refl, sym, text_key,
}
use test_ai_agent.Prelude.Int.{pos, neg}
use test_ai_agent.Prelude.Exec
use test_ai_agent.Prelude.Exec.{crashes}
use test_ai_agent.Prelude.Maps.{lookup}
use test_ai_agent.Json.{JsonLib}
use test_ai_agent.Json.Sample.{Value, nul, num, obj, end, field, sample_json}
use test_ai_agent.Core.Logging.Level.{info, debug, warn}
use test_ai_agent.Core.Logging.Logger.{Now, says, formats, new_logger}
use test_ai_agent.Core.Logging.Filter.{Call, sets, calls, run, passing, run-passing}
use test_ai_agent.Core.Signals.Handler
use test_ai_agent.Core.Signals.Handler.{SetUp, new_handler, sigterm}
use test_ai_agent.Tasks.Manager.Defs.{TaskManager, TaskEntry}
use test_ai_agent.Tasks.Manager.Null.{IsNull}
use test_ai_agent.Tasks.Builtin.Worker.{BuiltinTask}
use test_ai_agent.Ipc.Server.Defs.{Server}
use test_ai_agent.Ipc.Server.Events.{stop}
use test_ai_agent.Ipc.Server.Setup.{
  SocketCalls, EpollCalls, new_server, default_config, initialize, destroy,
}
use test_ai_agent.Ipc.Server.Lifecycle.{destroy-initialize}
use test_ai_agent.Ipc.Server.Threads.{
  waiting, testing, ended, Threads, begin, test, still, handles, stop_forgotten,
}
use test_ai_agent.Ipc.Server.Ending.{Move, start, moved, woke, stop_ends}
use test_ai_agent.Cli.Socket.{
  sent, received, connect, setup_socket, new_client, send_loop, recv_loop,
}
use test_ai_agent.Cli.Client.{
  send_message, send_request, finish_request, read_response, build_request,
}
use test_ai_agent.Cli.Options.{CliOptions}
use test_ai_agent.Cli.Report.{Report, text, number, newline, prints, format_and_print_response}
use test_ai_agent.Cli.Main.{Calls as ClientCalls, plan, main as client_main}
use test_ai_agent.Cli.Silence.{main-silent}
use test_ai_agent.Ipc.Session.Defs.{again}
use test_ai_agent.Ipc.Session.Read.{arrived}
use test_ai_agent.Ipc.Session.Write.{taken}
use test_ai_agent.Ipc.Session.Silent.{Call as SessionCall, readable, sends, writable}
use test_ai_agent.Ipc.Server.Answers.{server_silent}
use test_ai_agent.Cli.Socket.{recv_interrupted, recv_timeout}
use test_ai_agent.Cli.Report.{complains}
use test_ai_agent.Cli.Status.{Succeeds, main-Succeeds}
use test_ai_agent.Daemon.Options.{proceed, shows_usage, shows_version, unknown_option, parse}
use test_ai_agent.Daemon.Arguments.{Setting, socket_path, log_level, arguments, parse-arguments}
use test_ai_agent.Daemon.Main.{Calls as DaemonCalls, shut_down, main as daemon_main}
use test_ai_agent.Daemon.Status.{main-status, main-crashes}
use test_ai_agent.Examples.Data.{lib, echo, server, session}
use test_ai_agent.Examples.Tasks.{ops, manager}

abbrev noon : Now
noon = record { time = "2026-01-01 12:00:00"; epoch_ms = 1005 }

abbrev log_calls : List Call
log_calls =
    calls noon (says debug "hidden")
    ∷ sets debug
    ∷ calls noon (says debug "shown")
    ∷ calls noon (formats warn "UnixSocketServer" ("accept failed: {}" ∷ "EMFILE" ∷ []))
    ∷ []

run-passing_example : (run log_calls (new_logger info)).output ≡ [] ++ passing info log_calls
run-passing_example = run-passing log_calls (new_logger info)

abbrev socket_calls : SocketCalls
socket_calls = record { made = pos 3; binds = true; listens = true }

abbrev epoll_calls : EpollCalls
epoll_calls = record { made = pos 4; adds = false }

abbrev fresh_server : Server ℕ
fresh_server = new_server default_config 0

-- The socket cannot be added to the epoll instance.
destroy-initialize_example :
    (destroy (initialize socket_calls epoll_calls (47 ∷ []) (fresh_server, pos 0 ∷ [])).0).1
    ≡ pos 0 ∷ []
destroy-initialize_example =
    destroy-initialize socket_calls epoll_calls (47 ∷ []) fresh_server (pos 0 ∷ []) (refl, tt)
      (refl, (refl, tt)) refl

stop_forgotten_example :
    ((begin lib echo (stop server)).phase ≡ testing)
    × ((test lib echo (begin lib echo (stop server)).server).phase ≡ waiting)
stop_forgotten_example =
    stop_forgotten lib echo server (test lib echo (begin lib echo (stop server)).server) refl refl
      still

abbrev stopping_threads : Threads ℕ
stopping_threads = record { server = record server { stop_requested = true }; phase = waiting }

abbrev woken_threads : Threads ℕ
woken_threads = record { server = record server { stop_requested = true }; phase = testing }

-- The thread is woken without an event.
stop_ends_example :
    (1 ≤ 2)
    × ((woken_threads.phase ≡ ended) ⊎ ((1 ≤ 1) × (u : Threads ℕ) × Move lib echo woken_threads u))
stop_ends_example =
    stop_ends lib echo 1 stopping_threads woken_threads refl (λ e. cc e)
      (moved start (woke (handles [] refl)))

-- A daemon that answers `{"result": 1}`.
abbrev answering : JsonLib Value
answering = sample_json (λ bytes. some (obj (field "result" (num (pos 1)) end)))

abbrev client_calls : ClientCalls
client_calls = record {
  made = pos 3;
  sets_receive = true;
  sets_send = true;
  accepted = true;
  sending = sent 3 ∷ [];
  receiving = received (123 ∷ 125 ∷ 10 ∷ []) ∷ [];
  what = "";
  duration = 7;
}

abbrev ping_options : CliOptions Value
ping_options = record {
  socket_path = "/tmp/demo_daemon.sock";
  timeout_ms = pos 5000;
  raw_json = false;
  help = false;
  command = "ping";
  args = [];
  params = nul;
}

abbrev pong : Report Value
pong = prints (text "Pong! Response time: " ∷ number (pos 7) ∷ text "ms" ∷ newline ∷ []) 0

ponged : client_main answering client_calls ping_options ≡ some pong
unfolding client_main connect setup_socket send_request send_message send_loop recv_loop
    finish_request read_response build_request format_and_print_response
ponged = refl

main-Succeeds_example :
    ((connect (pos 3) true true true (new_client "/tmp/demo_daemon.sock" (pos 5000))).1 ≡ true)
    × Succeeds answering client_calls
        (connect (pos 3) true true true (new_client "/tmp/demo_daemon.sock" (pos 5000))).0
        (plan answering "" ping_options)
main-Succeeds_example = main-Succeeds answering client_calls ping_options pong ponged refl refl

-- The daemon reads a ping and answers it, and the client hears nothing until its time is over.
abbrev session_calls : List (SessionCall Value)
session_calls =
    readable (arrived (123 ∷ 125 ∷ 10 ∷ []) ∷ []) again
    ∷ sends (record { id = some (pos 7); result = nul })
    ∷ writable (taken 3 ∷ []) again
    ∷ []

abbrev patient_calls : ClientCalls
patient_calls = record client_calls { receiving = recv_interrupted ∷ recv_timeout ∷ [] }

abbrev timed_out : Report Value
timed_out =
    complains
      (text "Error: "
        ∷ text "Communication error: Response timeout"
        ∷ text " (code: "
        ∷ number (neg 1)
        ∷ text ")"
        ∷ newline
        ∷ [])
      1

gave_up : client_main lib patient_calls ping_options ≡ some timed_out
unfolding client_main connect setup_socket send_request send_message send_loop recv_loop
    finish_request build_request format_and_print_response
gave_up = refl

main-silent_example : timed_out.status ≢ Exec.returns 0
main-silent_example =
    main-silent lib echo session_calls session server patient_calls ping_options timed_out [] refl
      (sym (server_silent lib echo session_calls session server refl)) gave_up refl

abbrev daemon_settings : List Setting
daemon_settings = socket_path "/run/a.sock" ∷ log_level debug ∷ socket_path "/run/b.sock" ∷ []

parse-arguments_example :
    (parse (arguments daemon_settings) ≡ proceed "/run/b.sock" debug)
    × (parse (arguments daemon_settings ++ "--help" ∷ "--help" ∷ []) ≡ shows_usage)
    × (parse (arguments daemon_settings ++ "--version" ∷ "--help" ∷ []) ≡ shows_version)
    × (parse (arguments daemon_settings ++ "--foreground" ∷ "--help" ∷ [])
        ≡ unknown_option "--foreground")
parse-arguments_example =
    parse-arguments daemon_settings "--foreground" ("--help" ∷ []) (refl, refl, refl, refl)

abbrev good_calls : SetUp
good_calls = record {
  makes_pipe = true;
  gets_flags = true;
  sets_flags = true;
  handles_int = true;
  handles_term = true;
  handles_hup = true;
  ignores_pipe = true;
}

-- The thread of the server leaves a manager with one entry, which has no task.
abbrev empty_entry : TaskEntry BuiltinTask
empty_entry = record {
  task = none;
  stop_requested = false;
  is_running = false;
  created_at = 5;
  started_at = 0;
  stopped_at = 0;
}

abbrev left_manager : TaskManager BuiltinTask Value
left_manager = record manager { tasks = ("task_0", empty_entry) ∷ [] }

abbrev daemon_calls : DaemonCalls BuiltinTask Value
daemon_calls = record {
  signals = good_calls;
  registered = [];
  socket = socket_calls;
  epoll = record epoll_calls { adds = true };
  rounds = record { early = sigterm ∷ []; late = [] } ∷ [];
  thread_left = some left_manager;
}

parsed : parse [] ≡ proceed "/tmp/demo_daemon.sock" info
unfolding parse
parsed = refl

ready : (Handler.initialize good_calls new_handler).1 ≡ true
unfolding Handler.initialize
ready = refl

no_task : IsNull "task_0" left_manager.tasks
unfolding lookup
no_task = (empty_entry, refl, refl)

main-status_example :
    (daemon_main lib ops daemon_calls [] new_handler (new_logger info)).status
    ≡ shut_down lib ops true (some left_manager)
main-status_example =
    main-status lib ops daemon_calls [] "/tmp/demo_daemon.sock" info (new_logger info) parsed ready
      refl

main-crashes_example :
    (daemon_main lib ops daemon_calls [] new_handler (new_logger info)).status ≡ some crashes
main-crashes_example =
    main-crashes lib ops daemon_calls [] "/tmp/demo_daemon.sock" info (new_logger info) "task_0"
      left_manager parsed ready refl refl refl refl no_task
