-- ===== src/Daemon/Arguments.antt =====
-- The options of src/daemon/main.cpp, from settings to arguments and back.
use test_ai_agent.Prelude.{
  String, List, [], ◌∷◌, ◌++◌, ◌≡◌, refl, ◌∙◌, sym, ap, str_eq, false, some,
}
use mathlib.Core.List.{append-nil}
use test_ai_agent.Core.Logging.Level.{LogLevel, trace, debug, info, warn, error}
use test_ai_agent.Daemon.Options.{
  proceed, shows_usage, shows_version, unknown_option, read_level, parse_args, parse,
}

pub data Setting : Type 0 where
  socket_path : String → Setting
  log_level : LogLevel → Setting

abbrev pub level_text : LogLevel → String
level_text trace = "trace"
level_text debug = "debug"
level_text info = "info"
level_text warn = "warn"
level_text error = "error"

abbrev pub shown : Setting → List String
shown (socket_path path) = "--socket-path" ∷ path ∷ []
shown (log_level level) = "--log-level" ∷ level_text level ∷ []

abbrev pub arguments : List Setting → List String
arguments [] = []
arguments (s ∷ more) = shown s ++ arguments more

-- The path and the level that were set last.
abbrev pub last_path : String → List Setting → String
last_path path [] = path
last_path path (socket_path p ∷ more) = last_path p more
last_path path (log_level l ∷ more) = last_path path more

abbrev pub last_level : LogLevel → List Setting → LogLevel
last_level level [] = level
last_level level (socket_path p ∷ more) = last_level level more
last_level level (log_level l ∷ more) = last_level l more

read_level-level_text : (level : LogLevel) → read_level (level_text level) ≡ some level
unfolding read_level
read_level-level_text trace = refl
read_level-level_text debug = refl
read_level-level_text info = refl
read_level-level_text warn = refl
read_level-level_text error = refl

parse_args-arguments :
    (settings : List Setting) (rest : List String) (path : String) (level : LogLevel)
    → parse_args (arguments settings ++ rest) path level
      ≡ parse_args rest (last_path path settings) (last_level level settings)
unfolding parse_args
parse_args-arguments [] rest path level = refl
parse_args-arguments (socket_path p ∷ more) rest path level = parse_args-arguments more rest p level
parse_args-arguments (log_level l ∷ more) rest path level =
    rw (parse_args, read_level-level_text l) (parse_args-arguments more rest path l)

-- An argument that is none of the four options, which ends the reading as the last one does that
-- lacks its value.
abbrev pub IsUnknown : String → List String → Type 0
IsUnknown arg [] = (str_eq arg "--help" ≡ false) × (str_eq arg "--version" ≡ false)
IsUnknown arg (next ∷ rest) =
    (str_eq arg "--help" ≡ false)
    × (str_eq arg "--version" ≡ false)
    × (str_eq arg "--socket-path" ≡ false)
    × (str_eq arg "--log-level" ≡ false)

unknown_lem :
    (arg : String) (rest : List String) (path : String) (level : LogLevel)
    → IsUnknown arg rest
    → parse_args (arg ∷ rest) path level ≡ unknown_option arg
unfolding parse_args
unknown_lem arg [] path level (a, b) = rw (a, b) refl
unknown_lem arg (next ∷ rest) path level (a, b, c, d) = rw (a, b, c, d) refl

usage_lem :
    (rest : List String) (path : String) (level : LogLevel)
    → parse_args ("--help" ∷ rest) path level ≡ shows_usage
unfolding parse_args
usage_lem [] path level = refl
usage_lem (next ∷ rest) path level = refl

version_lem :
    (rest : List String) (path : String) (level : LogLevel)
    → parse_args ("--version" ∷ rest) path level ≡ shows_version
unfolding parse_args
version_lem [] path level = refl
version_lem (next ∷ rest) path level = refl

-- From arguments that set a path or a level any number of times the daemon reads the last path and
-- the last level, or the defaults; if `--help`, `--version` or an unknown argument follows them,
-- `--foreground` among these, it reads just that, whatever comes after.
pub parse-arguments :
    (settings : List Setting) (arg : String) (rest : List String)
    → IsUnknown arg rest
    → (parse (arguments settings)
        ≡ proceed (last_path "/tmp/demo_daemon.sock" settings) (last_level info settings))
      × (parse (arguments settings ++ "--help" ∷ rest) ≡ shows_usage)
      × (parse (arguments settings ++ "--version" ∷ rest) ≡ shows_version)
      × (parse (arguments settings ++ arg ∷ rest) ≡ unknown_option arg)
unfolding parse parse_args
parse-arguments settings arg rest unknown =
    let reads =
      λ (args : List String). parse_args-arguments settings args "/tmp/demo_daemon.sock" info in
    (
      ap (λ (args : List String). parse_args args "/tmp/demo_daemon.sock" info)
            (sym (append-nil (arguments settings)))
          ∙ reads [],
      reads ("--help" ∷ rest) ∙ usage_lem rest _ _,
      reads ("--version" ∷ rest) ∙ version_lem rest _ _,
      reads (arg ∷ rest) ∙ unknown_lem arg rest _ _ unknown,
    )
