-- ===== src/Daemon/Options.antt =====
-- The options of src/daemon/main.cpp.
use test_ai_agent.Prelude.{String, List, [], ◌∷◌, Option, none, some, str_eq, if◌then◌else◌}
use test_ai_agent.Core.Logging.Level.{LogLevel, trace, debug, info, warn, error}

-- What the options ask for: to run, to print the usage or the version and succeed, or to complain of
-- a level or an option and fail.
pub data Parsed : Type 0 where
  proceed : String → LogLevel → Parsed
  shows_usage : Parsed
  shows_version : Parsed
  unknown_level : String → Parsed
  unknown_option : String → Parsed

-- The chain of tests of a level.
unfoldable pub read_level : String → Option LogLevel
read_level level =
    if str_eq level "trace"
    then some trace
    else if str_eq level "debug"
    then some debug
    else if str_eq level "info"
    then some info
    else if str_eq level "warn"
    then some warn
    else if str_eq level "error"
    then some error
    else none

-- The loop over the arguments, from `argv[1]` on. An option that wants a value and is the last
-- argument is unknown.
unfoldable pub parse_args : List String → String → LogLevel → Parsed
unfolding read_level
parse_args [] socket_path log_level = proceed socket_path log_level
parse_args (arg ∷ []) socket_path log_level =
    if str_eq arg "--help"
    then shows_usage
    else if str_eq arg "--version"
    then shows_version
    else unknown_option arg
parse_args (arg ∷ value ∷ more) socket_path log_level =
    let with_path = parse_args more value log_level in
    let with_level : Parsed = elim (read_level value) [
      | none ↦ unknown_level value
      | some level ↦ parse_args more socket_path level
    ] in
    if str_eq arg "--help"
    then shows_usage
    else if str_eq arg "--version"
    then shows_version
    else if str_eq arg "--socket-path"
    then with_path
    else if str_eq arg "--log-level"
    then with_level
    else unknown_option arg

unfoldable pub parse : List String → Parsed
unfolding parse_args
parse args = parse_args args "/tmp/demo_daemon.sock" info
